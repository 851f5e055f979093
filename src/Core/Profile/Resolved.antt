-- ===== src/Core/Profile/Resolved.antt =====
-- netd-core/src/profile.rs: what `resolve` gives of a whole tree.
use netd.Base.{
  ℕ, ◌≡◌, refl, inl, inr, Bool, true, false, ◌&&◌, List, [], ◌∷◌, arith, Bool-cases, is_some, All,
}
use netd.Base.BtreeMap.{insert, All-insert}
use netd.Base.Bytes.{bytes_eq}
use netd.Base.Text.{codes}
use netd.Core.Raw.{RawValue, RawKey, RawKeys, raw_key, no_keys, one_more}
use netd.Core.Profile.{Profile}
use netd.Core.Profile.Values.{ok, and_then, lower, as_bool, word_of}
use netd.Core.Profile.Tree.{
  text_key, Bundles, parse, own_values, is_bad_name, path_of, Profiles, add_profile, walk, walk_all,
  resolve,
}
use netd.Core.Profile.Sound.{IsSound, parse-IsSound}
use netd.Core.Profile.Items.{ok_transport, and_then_each, shaped_each}

-- A property of profiles that each key's own profile has, given what holds of `enabled`.
module _ (P : Profile → Type 0) (Q : Bool → Type 0)
    (each : (path : List ℕ) (effective : List (List ℕ × RawValue)) (enabled : Bool) (c : Bundles)
      → Q enabled
      → parse path effective ≡ ok c
      → P (record { path = path; enabled = enabled; address = c.0; dns = c.1 }))
    (own : (path : List ℕ) (vs inherited : List (List ℕ × RawValue)) (enabled : Bool)
        (r : List (List ℕ × RawValue) × Bool)
      → Q enabled
      → own_values path vs inherited enabled ≡ ok r
      → Q r.1) where
  abbrev Each : Profiles → Type 0
  Each out = All (λ e. P e.1) out

  add_profile-Each :
      (path : List ℕ) (effective : List (List ℕ × RawValue)) (enabled : Bool) (out more : Profiles)
      → Q enabled
      → Each out
      → add_profile path effective enabled out ≡ ok more
      → Each more
  unfolding add_profile
  add_profile-Each path effective enabled out more q k =
      and_then_each Each (parse path effective) _ more (λ c ran same.
        let p : Profile = record { path = path; enabled = enabled; address = c.0; dns = c.1 } in
        ok_transport Each (insert text_key (lower path) p out) more same
          (All-insert text_key P (lower path) p out (each path effective enabled c q ran) k))

  mutual
    unfolding walk

    walk-Each :
        (key : RawKey) (parent : List ℕ) (inherited : List (List ℕ × RawValue)) (enabled : Bool)
        (out more : Profiles)
        → Q enabled
        → Each out
        → walk key parent inherited enabled out ≡ ok more
        → Each more
    walk-Each (raw_key name values children) parent inherited enabled out more q k h =
        let path = path_of parent name in
        elim (Bool-cases (is_bad_name name)) [
          | inl e ↦ ground (arith, h, e)
          | inr e ↦
              and_then_each Each (own_values path values inherited enabled) _ more
                (λ r ran rest.
                  and_then_each Each (add_profile path r.0 r.1 out) _ more
                    (λ next added last.
                      walk_all-Each children path r.0 r.1 next more
                        (own path values inherited enabled r q ran)
                        (add_profile-Each path r.0 r.1 out next
                          (own path values inherited enabled r q ran) k added)
                        last)
                    rest)
                (rw (e, walk) at h)
        ]

    walk_all-Each :
        (keys : RawKeys) (path : List ℕ) (effective : List (List ℕ × RawValue)) (enabled : Bool)
        (out more : Profiles)
        → Q enabled
        → Each out
        → walk_all keys path effective enabled out ≡ ok more
        → Each more
    walk_all-Each no_keys path effective enabled out more q k h = ok_transport Each out more h k
    walk_all-Each (one_more key keys) path effective enabled out more q k h =
        and_then_each Each (walk key path effective enabled out) _ more
          (λ next ran rest.
            walk_all-Each keys path effective enabled next more q
              (walk-Each key path effective enabled out next q k ran) rest)
          h

-- Every profile of a tree that `resolve` accepts has an MTU of 68 at least, where it sets one, and
-- static addresses only of the families it deals in, each with a prefix no longer than the address.
pub resolve-IsSound :
    (root : RawKey) (out : Profiles) → resolve root ≡ ok out → All (λ e. IsSound e.1.address) out
unfolding resolve
resolve-IsSound (raw_key name values children) out h =
    walk_all-Each (λ p. IsSound p.address) (λ _. Unit)
      (λ path effective _ c _ ran. parse-IsSound path effective c ran) (λ _ _ _ _ _ _ _. tt)
      children [] [] true [] out tt tt h

own_values_disabled :
    (path : List ℕ) (vs inherited : List (List ℕ × RawValue)) (enabled : Bool)
    (r : List (List ℕ × RawValue) × Bool)
    → enabled ≡ false
    → own_values path vs inherited enabled ≡ ok r
    → r.1 ≡ false
unfolding own_values
own_values_disabled path [] inherited enabled r q h =
    ok_transport (λ (x : List (List ℕ × RawValue) × Bool). x.1 ≡ false) (inherited, enabled) r h q
own_values_disabled path ((name, v) ∷ vs) inherited enabled r q h =
    elim (Bool-cases (bytes_eq (lower name) (codes "enabled"))) [
      | inl e ↦
          shaped_each (λ (x : List (List ℕ × RawValue) × Bool). x.1 ≡ false) path name (as_bool v) _
            r (λ b _ rest. own_values_disabled path vs inherited (enabled && b) r (rw q refl) rest)
            (rw (e, own_values) at h)
      | inr e ↦ elim (Bool-cases (is_some (word_of (lower name)))) [
        | inl w ↦
            own_values_disabled path vs (insert text_key (lower name) v inherited) enabled r q
              (ground (arith, h, e, w))
        | inr w ↦ ground (arith, h, e, w)
      ]
    ]

abbrev pub Disabled : Profiles → Type 0
Disabled out = All (λ e. e.1.enabled ≡ false) out

-- Where a key's own values, or a key above it, leave it disabled, the whole tree below it adds only
-- profiles that are disabled.
pub walk-Disabled :
    (name parent : List ℕ) (values inherited : List (List ℕ × RawValue)) (children : RawKeys)
    (enabled : Bool) (r : List (List ℕ × RawValue) × Bool) (out : Profiles)
    → own_values (path_of parent name) values inherited enabled ≡ ok r
    → r.1 ≡ false
    → walk (raw_key name values children) parent inherited enabled [] ≡ ok out
    → Disabled out
unfolding walk
walk-Disabled name parent values inherited children enabled r out ran q h =
    elim (Bool-cases (is_bad_name name)) [
      | inl e ↦ ground (arith, h, e)
      | inr e ↦
          let chain : and_then (add_profile (path_of parent name) r.0 r.1 [])
                (λ more. walk_all children (path_of parent name) r.0 r.1 more)
              ≡ ok out =
            rw (e, ran, walk) at h in
          and_then_each Disabled (add_profile (path_of parent name) r.0 r.1 []) _ out
            (λ next added last.
              walk_all-Each (λ p. p.enabled ≡ false) (λ b. b ≡ false) (λ _ _ _ _ b _. b)
                own_values_disabled children (path_of parent name) r.0 r.1 next out q
                (add_profile-Each (λ p. p.enabled ≡ false) (λ b. b ≡ false) (λ _ _ _ _ b _. b)
                  own_values_disabled (path_of parent name) r.0 r.1 [] next q tt added)
                last)
            chain
    ]
