-- ===== src/Daemon/Reconcile/Addressed.antt =====
-- netd/src/reconcile.rs: when `plan_addresses` has nothing to do, over the lists that it is given.
use netd.Base.{
  filter, ℕ, ◌≡◌, ◌≢◌, refl, sym, ap, ◌∙◌, ◌⊎◌, ◌↔◌, inl, inr, true, false, ◌&&◌, List, [], ◌∷◌,
  ◌++◌, map, arith, ◌==◌, Bool-cases, All,
}
use mathlib.Core.Path.{subst}
use netd.Base.Members.{Some, In, In-append, In-map, In-filter, In-All, All-In, In-Some, Some-In}
use netd.Daemon.Model.{IpAddr, Address, Observed, is_v6_link_local, addresses_of, address_key}
use netd.Daemon.BtreeSet.{contains}
use netd.Daemon.Reconcile.{
  DesiredV6, Desired, address4, address6, want, is_managed, settled, have, same_ip, wanted_key,
}
use netd.Daemon.Reconcile.Keys.{
  same_ip_sound, same_ip_refl, address_key-eq, contains-In, In-from_list,
}

-- An observed address that may stand: one of another link, the kernel's own link-local one, or one with
-- the address and the prefix of a desired one.
pub data Kept (d : Desired) (a : Address) : Type 0 where
  elsewhere : a.index ≢ d.index → Kept d a
  link_local : (x : ℕ) → a.address ≡ IpAddr.v6 x → is_v6_link_local x ≡ true → Kept d a
  desired4 : Some (λ w. (a.address ≡ IpAddr.v4 w.0) × (a.prefix ≡ w.1)) d.addresses → Kept d a
  desired6 :
      Some (λ w. (a.address ≡ IpAddr.v6 w.address) × (a.prefix ≡ w.prefix)) d.addresses6 → Kept d a

-- The observed address is the desired IPv4 one, with no flags; it may be tentative.
abbrev pub Has4 : Desired → ℕ × ℕ → Address → Type 0
Has4 d (x, p) a =
    (a.index ≡ d.index)
    × (a.address ≡ IpAddr.v4 x)
    × (a.prefix ≡ p)
    × (a.deprecated ≡ false)
    × (a.no_prefix_route ≡ false)

-- The observed address is the desired IPv6 one, with its flags, and is not link-local; it may be
-- tentative.
abbrev pub Has6 : Desired → DesiredV6 → Address → Type 0
Has6 d w a =
    (a.index ≡ d.index)
    × (a.address ≡ IpAddr.v6 w.address)
    × (is_v6_link_local w.address ≡ false)
    × (a.prefix ≡ w.prefix)
    × (a.deprecated ≡ w.deprecated)
    × (a.no_prefix_route ≡ w.no_prefix_route)

-- The addresses of the link are the desired ones.
pub record Addressed (o : Observed) (d : Desired) : Type 0 where
  pub no_extra : All (Kept d) o.addresses
  pub none_missing4 : All (λ w. Some (Has4 d w) o.addresses) d.addresses
  pub none_missing6 : All (λ w. Some (Has6 d w) o.addresses) d.addresses6

unmanaged_lem :
    (x : IpAddr) → is_managed x ≡ false → (b : ℕ) × (x ≡ IpAddr.v6 b) × (is_v6_link_local b ≡ true)
unmanaged_lem (IpAddr.v4 b) h = cc h
unmanaged_lem (IpAddr.v6 b) h = (b, refl, ground (arith, h))

module _ (o : Observed) (d : Desired) where
  have-In :
      (a : Address)
      → In a (have o d.index) ↔ (
          (b : Address) × In b o.addresses
          × (b.index ≡ d.index)
          × (is_managed b.address ≡ true)
          × (a ≡ settled b))
  have-In a =
      let here = filter (λ b. is_managed b.address) (addresses_of d.index o) in
      let (set, set') = In-from_list address_key address_key-eq a (map settled here) in
      let (mapped, mapped') = In-map settled here a in
      (
        λ h.
            let (b, m, e) = mapped (set h) in
            let (m1, managed) =
              (In-filter (λ b. is_managed b.address) (addresses_of d.index o) b).0 m in
            let (m2, at) = (In-filter (λ b. b.index == d.index) o.addresses b).0 m1 in
            (b, m2, ground (arith, at), managed, e),
        λ (b, m, at, managed, e).
            let m1 =
              (In-filter (λ b. b.index == d.index) o.addresses b).1 (m, ground (arith, at)) in
            let m2 =
              (In-filter (λ b. is_managed b.address) (addresses_of d.index o) b).1 (m1, managed) in
            set' (mapped' (b, m2, e)),
      )

  want-In :
      (w : Address)
      → In w (want d) ↔ (
          ((x : ℕ × ℕ) × In x d.addresses × (w ≡ address4 d.index x))
          ⊎ ((x : DesiredV6) × In x d.addresses6 × (w ≡ address6 d.index x)))
  want-In w =
      let all = map (address4 d.index) d.addresses ++ map (address6 d.index) d.addresses6 in
      let (set, set') = In-from_list address_key address_key-eq w all in
      let (split, join) = In-append w (map (address4 d.index) d.addresses) _ in
      let (four, four') = In-map (address4 d.index) d.addresses w in
      let (six, six') = In-map (address6 d.index) d.addresses6 w in
      (
        λ h. elim (split (set h)) [ inl m ↦ inl (four m) | inr m ↦ inr (six m) ],
        λ h. elim h [ inl m ↦ set' (join (inl (four' m))) | inr m ↦ set' (join (inr (six' m))) ],
      )

  wanted_key_iff :
      (ws : List Address) (a : Address)
      → (wanted_key ws a ≡ true) ↔ Some (λ w. (w.address ≡ a.address) × (w.prefix ≡ a.prefix)) ws
  unfolding wanted_key
  wanted_key_iff [] a = (λ h. cc h, λ h. absurd h)
  wanted_key_iff (w ∷ ws) a =
      let (there, back) = wanted_key_iff ws a in
      (
        λ h. elim (Bool-cases (same_ip w.address a.address && w.prefix == a.prefix)) [
          | inl e ↦ inl (same_ip_sound w.address a.address (ground (arith, e)), ground (arith, e))
          | inr e ↦ inr (there (ground (arith, e, h)))
        ],
        λ t. elim t [
          | inl (e, p) ↦
              let same : same_ip w.address a.address ≡ true =
                ap (same_ip w.address) (sym e) ∙ same_ip_refl w.address in
              ground (arith, same, p)
          | inr m ↦ let found = back m in ground (arith, found)
        ],
      )

  Kept-wanted :
      (b : Address)
      → b.index ≡ d.index
      → is_managed b.address ≡ true
      → Kept d b
      → wanted_key (want d) b ≡ true
  Kept-wanted b at managed (elsewhere far) = absurd (far at)
  Kept-wanted b at managed (link_local x e l) =
      let wrong = sym managed ∙ ap is_managed e in ground (arith, wrong, l)
  Kept-wanted b at managed (desired4 h) =
      let (x, m, (e, p)) =
        Some-In (λ w. (b.address ≡ IpAddr.v4 w.0) × (b.prefix ≡ w.1)) d.addresses h in
      (wanted_key_iff (want d) b).1 (
        In-Some (λ w. (w.address ≡ b.address) × (w.prefix ≡ b.prefix)) (want d) (address4 d.index x)
          ((want-In (address4 d.index x)).1 (inl (x, m, refl))) (sym e, sym p))
  Kept-wanted b at managed (desired6 h) =
      let (x, m, (e, p)) =
        Some-In (λ (w : DesiredV6). (b.address ≡ IpAddr.v6 w.address) × (b.prefix ≡ w.prefix))
          d.addresses6 h in
      (wanted_key_iff (want d) b).1 (
        In-Some (λ w. (w.address ≡ b.address) × (w.prefix ≡ b.prefix)) (want d) (address6 d.index x)
          ((want-In (address6 d.index x)).1 (inr (x, m, refl))) (sym e, sym p))

  wanted-Kept : (b : Address) → wanted_key (want d) b ≡ true → Kept d b
  wanted-Kept b h =
      let (w, m, (e, p)) =
        Some-In (λ w. (w.address ≡ b.address) × (w.prefix ≡ b.prefix)) (want d)
          ((wanted_key_iff (want d) b).0 h) in
      elim ((want-In w).0 m) [
        | inl (x, n, s) ↦ desired4 (
            In-Some (λ w. (b.address ≡ IpAddr.v4 w.0) × (b.prefix ≡ w.1)) d.addresses x n
              (sym e ∙ ap (λ (a : Address). a.address) s, sym p ∙ ap (λ (a : Address). a.prefix) s))
        | inr (x, n, s) ↦ desired6 (
            In-Some (λ (w : DesiredV6). (b.address ≡ IpAddr.v6 w.address) × (b.prefix ≡ w.prefix))
              d.addresses6 x n
              (sym e ∙ ap (λ (a : Address). a.address) s, sym p ∙ ap (λ (a : Address). a.prefix) s))
      ]

  pub extra_iff :
      All (λ a. wanted_key (want d) a ≡ true) (have o d.index) ↔ All (Kept d) o.addresses
  unfolding wanted_key
  extra_iff = (
    λ h. In-All (Kept d) o.addresses (λ b m. elim (Bool-cases (b.index == d.index)) [
      | inr far ↦ elsewhere (λ e. ground (arith, far, e))
      | inl at ↦ elim (Bool-cases (is_managed b.address)) [
        | inr u ↦ let (x, e, l) = unmanaged_lem b.address u in link_local x e l
        | inl u ↦
            let there = (have-In (settled b)).1 (b, m, ground (arith, at), u, refl) in
            let found =
              All-In (λ a. wanted_key (want d) a ≡ true) (have o d.index) h (settled b) there in
            wanted-Kept b
              ((wanted_key_iff (want d) b).1 ((wanted_key_iff (want d) (settled b)).0 found))
      ]
    ]),
    λ h.
        In-All (λ a. wanted_key (want d) a ≡ true) (have o d.index)
          (λ a m.
            let (b, n, at, u, e) = (have-In a).0 m in
            let found = Kept-wanted b at u (All-In (Kept d) o.addresses h b n) in
            (wanted_key_iff (want d) a).1 (
              subst (λ x. Some (λ w. (w.address ≡ x.address) × (w.prefix ≡ x.prefix)) (want d))
                (sym e) ((wanted_key_iff (want d) b).0 found))),
  )

  -- A wanted address is among those that are there.
  abbrev IsThere : Address → Type 0
  IsThere w = contains address_key (have o d.index) w ≡ true

  IsThere4 : (x : ℕ × ℕ) → IsThere (address4 d.index x) ↔ Some (Has4 d x) o.addresses
  IsThere4 x =
      let (found, found') =
        contains-In address_key address_key-eq (address4 d.index x) (have o d.index) in
      (
        λ h.
            let (b, m, at, u, e) = (have-In (address4 d.index x)).0 (found h) in
            In-Some (Has4 d x) o.addresses b m (
              at,
              sym (ap (λ (a : Address). a.address) e),
              sym (ap (λ (a : Address). a.prefix) e),
              sym (ap (λ (a : Address). a.deprecated) e),
              sym (ap (λ (a : Address). a.no_prefix_route) e),
            ),
        λ h.
            let (b, m, (at, address, prefix, deprecated, no_prefix_route)) =
              Some-In (Has4 d x) o.addresses h in
            let same : address4 d.index x ≡ settled b = cc in
            found' ((have-In (address4 d.index x)).1 (b, m, at, ap is_managed address, same)),
      )

  IsThere6 : (x : DesiredV6) → IsThere (address6 d.index x) ↔ Some (Has6 d x) o.addresses
  IsThere6 x =
      let (found, found') =
        contains-In address_key address_key-eq (address6 d.index x) (have o d.index) in
      (
        λ h.
            let (b, m, at, u, e) = (have-In (address6 d.index x)).0 (found h) in
            let address = sym (ap (λ (a : Address). a.address) e) in
            let managed = sym (ap is_managed address) ∙ u in
            In-Some (Has6 d x) o.addresses b m (
              at,
              address,
              ground (arith, managed),
              sym (ap (λ (a : Address). a.prefix) e),
              sym (ap (λ (a : Address). a.deprecated) e),
              sym (ap (λ (a : Address). a.no_prefix_route) e),
            ),
        λ h.
            let (b, m, (at, address, far, prefix, deprecated, no_prefix_route)) =
              Some-In (Has6 d x) o.addresses h in
            let same : address6 d.index x ≡ settled b = cc in
            found' (
              (have-In (address6 d.index x)).1
                (b, m, at, ap is_managed address ∙ ground (arith, far), same)),
      )

  pub missing_iff : All IsThere (want d) ↔ (
      All (λ w. Some (Has4 d w) o.addresses) d.addresses
      × All (λ w. Some (Has6 d w) o.addresses) d.addresses6)
  missing_iff = (
    λ h. (
      In-All (λ w. Some (Has4 d w) o.addresses) d.addresses
          (λ x m. (IsThere4 x).0 (
            All-In IsThere (want d) h (address4 d.index x)
              ((want-In (address4 d.index x)).1 (inl (x, m, refl))))),
      In-All (λ w. Some (Has6 d w) o.addresses) d.addresses6
          (λ x m. (IsThere6 x).0 (
            All-In IsThere (want d) h (address6 d.index x)
              ((want-In (address6 d.index x)).1 (inr (x, m, refl))))),
    ),
    λ (h4, h6). In-All IsThere (want d) (λ w m. elim ((want-In w).0 m) [
      | inl (x, n, e) ↦
          subst IsThere (sym e)
            ((IsThere4 x).1 (All-In (λ w. Some (Has4 d w) o.addresses) d.addresses h4 x n))
      | inr (x, n, e) ↦
          subst IsThere (sym e)
            ((IsThere6 x).1 (All-In (λ w. Some (Has6 d w) o.addresses) d.addresses6 h6 x n))
    ]),
  )
