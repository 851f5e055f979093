-- ===== src/Daemon/Reconcile/Keys.antt =====
-- netd/src/reconcile.rs: the sets of addresses and of routes, by what stands in them.
use netd.Base.{
  ℕ, ◌≡◌, refl, sym, ap, ◌∙◌, ◌⊎◌, ◌↔◌, inl, inr, Bool, true, false, Option, none, some, List, [],
  ◌∷◌, ◌++◌, arith, Bool-cases,
}
use netd.Base.Members.{In}
use netd.Base.Bytes.{bytes_eq, bytes_eq_sound, bytes_eq_refl}
use netd.Daemon.Model.{IpAddr, Address, Route, ip_key, bit, gateway_key, address_key, route_key}
use netd.Daemon.Reconcile.{same_ip}
use netd.Daemon.BtreeSet.{contains, insert, from_list, contains-from_list, contains-insert}

-- `==` on addresses.
pub same_ip_sound : (a b : IpAddr) → same_ip a b ≡ true → a ≡ b
same_ip_sound (IpAddr.v4 a) (IpAddr.v4 b) h = ap IpAddr.v4 (ground arith)
same_ip_sound (IpAddr.v4 a) (IpAddr.v6 b) h = cc
same_ip_sound (IpAddr.v6 a) (IpAddr.v4 b) h = cc
same_ip_sound (IpAddr.v6 a) (IpAddr.v6 b) h = ap IpAddr.v6 (ground arith)

pub same_ip_refl : (a : IpAddr) → same_ip a a ≡ true
same_ip_refl (IpAddr.v4 a) = ground arith
same_ip_refl (IpAddr.v6 a) = ground arith

ip_key_lem : (x y : IpAddr) (s t : List ℕ) → ip_key x ++ s ≡ ip_key y ++ t → (x ≡ y) × (s ≡ t)
ip_key_lem (IpAddr.v4 a) (IpAddr.v4 b) s t h = (ap IpAddr.v4 (cc h), cc h)
ip_key_lem (IpAddr.v4 a) (IpAddr.v6 b) s t h = cc h
ip_key_lem (IpAddr.v6 a) (IpAddr.v4 b) s t h = cc h
ip_key_lem (IpAddr.v6 a) (IpAddr.v6 b) s t h = (ap IpAddr.v6 (cc h), cc h)

gateway_key_lem :
    (x y : Option IpAddr) (s t : List ℕ)
    → gateway_key x ++ s ≡ gateway_key y ++ t
    → (x ≡ y) × (s ≡ t)
gateway_key_lem none none s t h = (refl, cc h)
gateway_key_lem none (some b) s t h = cc h
gateway_key_lem (some a) none s t h = cc h
gateway_key_lem (some a) (some b) s t h =
    let (same, rest) = ip_key_lem a b s t (cc h) in (ap some same, rest)

bit_lem : (x y : Bool) → bit x ≡ bit y → x ≡ y
bit_lem true true h = refl
bit_lem true false h = absurd (omega arith)
bit_lem false true h = absurd (omega arith)
bit_lem false false h = refl

pub address_key-eq : (a b : Address) → address_key a ≡ address_key b → a ≡ b
address_key-eq a b h =
    let index : a.index ≡ b.index = cc h in
    let (address, rest) =
      ip_key_lem a.address b.address
        (a.prefix ∷ bit a.deprecated ∷ bit a.no_prefix_route ∷ bit a.tentative ∷ [])
        (b.prefix ∷ bit b.deprecated ∷ bit b.no_prefix_route ∷ bit b.tentative ∷ []) (cc h) in
    let prefix : a.prefix ≡ b.prefix = cc rest in
    let deprecated = bit_lem a.deprecated b.deprecated (cc rest) in
    let no_prefix_route = bit_lem a.no_prefix_route b.no_prefix_route (cc rest) in
    let tentative = bit_lem a.tentative b.tentative (cc rest) in cc

pub route_key-eq : (a b : Route) → route_key a ≡ route_key b → a ≡ b
route_key-eq a b h =
    let index : a.index ≡ b.index = cc h in
    let (destination, rest) =
      ip_key_lem a.destination b.destination
        (a.prefix ∷ (gateway_key a.gateway ++ (a.metric ∷ a.protocol ∷ [])))
        (b.prefix ∷ (gateway_key b.gateway ++ (b.metric ∷ b.protocol ∷ []))) (cc h) in
    let prefix : a.prefix ≡ b.prefix = cc rest in
    let (gateway, last) =
      gateway_key_lem a.gateway b.gateway (a.metric ∷ a.protocol ∷ []) (b.metric ∷ b.protocol ∷ [])
        (cc rest) in
    let metric : a.metric ≡ b.metric = cc last in
    let protocol : a.protocol ≡ b.protocol = cc last in cc

module _ {A : Type 0} (key : A → List ℕ) (sound : (a b : A) → key a ≡ key b → a ≡ b) where
  pub contains-In : (z : A) (xs : List A) → (contains key xs z ≡ true) ↔ In z xs
  unfolding contains
  contains-In z [] = (λ h. cc h, λ h. absurd h)
  contains-In z (x ∷ xs) =
      let (there, back) = contains-In z xs in
      (
        λ h. elim (Bool-cases (bytes_eq (key z) (key x))) [
          | inl e ↦ inl (sound z x (bytes_eq_sound (key z) (key x) e))
          | inr e ↦ inr (there (ground (arith, e, h)))
        ],
        λ t. elim t [
          | inl e ↦
              let same : bytes_eq (key z) (key x) ≡ true =
                ap (λ w. bytes_eq (key z) (key w)) (sym e) ∙ bytes_eq_refl (key z) in
              ground (arith, same)
          | inr m ↦ let found = back m in ground (arith, found)
        ],
      )

  pub In-from_list : (z : A) (xs : List A) → In z (from_list key xs) ↔ In z xs
  In-from_list z xs =
      let same = contains-from_list key z xs in
      (
        λ h. (contains-In z xs).0 (sym same ∙ (contains-In z (from_list key xs)).1 h),
        λ h. (contains-In z (from_list key xs)).0 (same ∙ (contains-In z xs).1 h),
      )

  pub In-insert : (x z : A) (xs : List A) → In z (insert key x xs) ↔ ((z ≡ x) ⊎ In z xs)
  unfolding contains
  In-insert x z xs =
      let same = contains-insert key x z xs in
      (
        λ h. (contains-In z (x ∷ xs)).0 (sym same ∙ (contains-In z (insert key x xs)).1 h),
        λ h. (contains-In z (insert key x xs)).0 (same ∙ (contains-In z (x ∷ xs)).1 h),
      )
