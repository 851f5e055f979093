-- ===== src/Core/Profile/Inherited.antt =====
-- netd-core/src/profile.rs: the values that hold at a key, its own and those of the keys above it.
use netd.Base.{
  ℕ, ◌≡◌, refl, sym, ap, ◌∙◌, inl, inr, Bool, true, false, ◌&&◌, Option, none, some, List, [], ◌∷◌,
  arith, if◌then◌else◌, Bool-cases, is_some, or_else,
}
use netd.Base.BtreeMap.{get, insert, get-insert}
use netd.Base.Bytes.{bytes_eq, bytes_eq_sound}
use netd.Base.Text.{codes}
use netd.Core.Raw.{RawValue}
use netd.Core.Profile.Values.{ok, lower, as_bool, word_of}
use netd.Core.Profile.Tree.{text_key, own_values}
use netd.Core.Profile.Items.{ok_transport, shaped_each}

-- The last of a key's own values with the name, in lower case.
unfoldable pub last_named : List ℕ → List (List ℕ × RawValue) → Option RawValue
last_named word [] = none
last_named word ((name, v) ∷ vs) =
    or_else (last_named word vs) (if bytes_eq word (lower name) then some v else none)

or_else-some :
    {A : Type 0} (x : Option A) (b : Bool) (v : A) (y : Option A)
    → or_else x (if b then some v else y) ≡ or_else (or_else x (if b then some v else none)) y
or_else-some none true v y = refl
or_else-some none false v y = refl
or_else-some (some a) b v y = refl

or_else-none : {A : Type 0} (x : Option A) → or_else x none ≡ x
or_else-none none = refl
or_else-none (some a) = refl

-- Under any name but `Enabled`: what holds at a key that is accepted is the last of its own values with
-- that name, and where it has none, what holds above it.
pub own_values-get :
    (word path : List ℕ) (vs inherited : List (List ℕ × RawValue)) (enabled : Bool)
    (r : List (List ℕ × RawValue) × Bool)
    → bytes_eq word (codes "enabled") ≡ false
    → own_values path vs inherited enabled ≡ ok r
    → get text_key word r.0 ≡ or_else (last_named word vs) (get text_key word inherited)
unfolding own_values last_named
own_values-get word path [] inherited enabled r q h =
    ok_transport
      (λ (x : List (List ℕ × RawValue) × Bool). get text_key word x.0 ≡ get text_key word inherited)
      (inherited, enabled) r h refl
own_values-get word path ((name, v) ∷ vs) inherited enabled r q h =
    elim (Bool-cases (bytes_eq (lower name) (codes "enabled"))) [
      | inl e ↦
          let other : bytes_eq word (lower name) ≡ false =
            ap (bytes_eq word) (bytes_eq_sound (lower name) (codes "enabled") e) ∙ q in
          shaped_each
            (λ (x : List (List ℕ × RawValue) × Bool).
              get text_key word x.0
              ≡ or_else (last_named word ((name, v) ∷ vs)) (get text_key word inherited))
            path name (as_bool v) _ r
            (λ b _ rest.
              own_values-get word path vs inherited (enabled && b) r q rest
              ∙ rw (other, last_named)
                  (ap (λ x. or_else x (get text_key word inherited))
                    (sym (or_else-none (last_named word vs)))))
            (rw (e, own_values) at h)
      | inr e ↦ elim (Bool-cases (is_some (word_of (lower name)))) [
        | inr w ↦ ground (arith, h, e, w)
        | inl w ↦
            let rest : own_values path vs (insert text_key (lower name) v inherited) enabled
                ≡ ok r =
              ground (arith, h, e, w) in
            own_values-get word path vs (insert text_key (lower name) v inherited) enabled r q rest
            ∙ (ap (or_else (last_named word vs)) (get-insert text_key word (lower name) v inherited)
                ∙ or_else-some (last_named word vs) (bytes_eq word (lower name)) v
                    (get text_key word inherited))
      ]
    ]
