-- ===== src/Daemon/Restart/Caught.antt =====
-- netd/src/restart.rs: when what `capture` finds is wanted once it is preserved.
use netd.Base.{
  All-filter, All-imp, All-map, filter, ℕ, ◌≡◌, refl, sym, ap, ◌∙◌, inl, inr, Bool, true, ◌&&◌,
  ◌||◌, some, List, [], ◌∷◌, ◌++◌, map, arith, ◌==◌, Bool-cases, All,
}
use mathlib.Core.Path.{subst}
use netd.Base.Bytes.{less, bytes_eq}
use netd.Daemon.Model.{IpAddr, Address, Route, Observed, address_key, ip_key, addresses_of}
use netd.Daemon.BtreeSet.{insert, from_list, from_list-All}
use netd.Daemon.Reconcile.{Desired, same_ip, wanted_key, want, address4, have, settled, is_managed}
use netd.Daemon.Restart.{Ipv4, kept, capture}

-- The test of `wanted_key` on one address.
abbrev names : Address → Address → Bool
names w a = same_ip w.address a.address && w.prefix == a.prefix

swap : (p q r s : Bool) → r ≡ (p || s) → (q || r) ≡ (p || (q || s))
swap p q r s h = ground (arith, h)

same_front :
    (i j : ℕ) (p q : IpAddr) (m n : ℕ) (ts us : List ℕ)
    → bytes_eq (i ∷ (ip_key p ++ (m ∷ ts))) (j ∷ (ip_key q ++ (n ∷ us))) ≡ true
    → (p ≡ q) × (m ≡ n)
unfolding bytes_eq
same_front i j (IpAddr.v4 a) (IpAddr.v4 b) m n ts us h = (ap IpAddr.v4 (ground arith), ground arith)
same_front i j (IpAddr.v4 a) (IpAddr.v6 b) m n ts us h = absurd (ground arith)
same_front i j (IpAddr.v6 a) (IpAddr.v4 b) m n ts us h = absurd (ground arith)
same_front i j (IpAddr.v6 a) (IpAddr.v6 b) m n ts us h = (ap IpAddr.v6 (ground arith), ground arith)

same_key :
    (x y a : Address) → bytes_eq (address_key x) (address_key y) ≡ true → names x a ≡ names y a
same_key x y a h =
    let (p, m) = same_front x.index y.index x.address y.address x.prefix y.prefix _ _ h in
    ap (λ q. same_ip q a.address && x.prefix == a.prefix) p
    ∙ ap (λ n. same_ip y.address a.address && n == a.prefix) m

wanted-insert :
    (x a : Address) (ys : List Address)
    → wanted_key (insert address_key x ys) a ≡ (names x a || wanted_key ys a)
unfolding insert wanted_key
wanted-insert x a [] = refl
wanted-insert x a (y ∷ ys) = elim (Bool-cases (bytes_eq (address_key x) (address_key y))) [
  | inl e ↦ rw (e, insert) (ground (arith, same_key x y a e))
  | inr e ↦
      rw (e, insert)
        (elim (Bool-cases (less (address_key x) (address_key y))) [
          | inl l ↦ rw l refl
          | inr l ↦ rw l (
              swap (names x a) (names y a) (wanted_key (insert address_key x ys) a)
                (wanted_key ys a) (wanted-insert x a ys))
        ])
]

wanted-from_list :
    (a : Address) (xs : List Address) → wanted_key (from_list address_key xs) a ≡ wanted_key xs a
unfolding from_list wanted_key
wanted-from_list a [] = refl
wanted-from_list a (x ∷ xs) =
    wanted-insert x a (from_list address_key xs) ∙ ap (λ b. names x a || b) (wanted-from_list a xs)

wanted-append :
    (a : Address) (xs ys : List Address) → wanted_key ys a ≡ true → wanted_key (xs ++ ys) a ≡ true
unfolding wanted_key
wanted-append a [] ys h = h
wanted-append a (x ∷ xs) ys h = ground (arith, wanted-append a xs ys h)

wanted-prepend :
    (a : Address) (xs ys : List Address) → wanted_key xs a ≡ true → wanted_key (xs ++ ys) a ≡ true
unfolding wanted_key
wanted-prepend a [] ys h = absurd (ground (arith, h))
wanted-prepend a (x ∷ xs) ys h = ground (arith, h, wanted-prepend a xs ys)

-- Wanted, where it has the requested address.
abbrev pub Found : ℕ → List Address → Address → Type 0
Found r ws a = same_ip a.address (IpAddr.v4 r) ≡ true → wanted_key ws a ≡ true

-- What `capture` finds among `xs`, as wanted addresses.
abbrev pub caught : ℕ → ℕ → List Address → List Address
caught index r xs =
    map (address4 index)
      (map (λ a. (r, a.prefix)) (filter (λ a. same_ip a.address (IpAddr.v4 r)) xs))

same_ip_sym : (p : IpAddr) (r : ℕ) → same_ip p (IpAddr.v4 r) ≡ true → same_ip (IpAddr.v4 r) p ≡ true
same_ip_sym (IpAddr.v4 a) r h = ground arith
same_ip_sym (IpAddr.v6 a) r h = h

pub caught-Found : (index r : ℕ) (xs : List Address) → All (Found r (caught index r xs)) xs
unfolding filter wanted_key
caught-Found index r [] = tt
caught-Found index r (x ∷ xs) = elim (Bool-cases (same_ip x.address (IpAddr.v4 r))) [
  | inl e ↦
      let shorter : filter (λ a. same_ip a.address (IpAddr.v4 r)) (x ∷ xs)
          ≡ x ∷ filter (λ a. same_ip a.address (IpAddr.v4 r)) xs =
        rw (e, filter) refl in
      subst (λ q. All (Found r (map (address4 index) (map (λ a. (r, a.prefix)) q))) (x ∷ xs))
        (sym shorter)
        (
          λ h. ground (arith, same_ip_sym x.address r e),
          All-imp (Found r (caught index r xs)) _ xs (λ a f h. ground (arith, f h))
              (caught-Found index r xs),
        )
  | inr e ↦
      let same : filter (λ a. same_ip a.address (IpAddr.v4 r)) (x ∷ xs)
          ≡ filter (λ a. same_ip a.address (IpAddr.v4 r)) xs =
        rw (e, filter) refl in
      subst (λ q. All (Found r (map (address4 index) (map (λ a. (r, a.prefix)) q))) (x ∷ xs))
        (sym same) ((λ h. absurd (ground (arith, e, h))), caught-Found index r xs)
]

map-append : {A B : Type 0} (f : A → B) (xs ys : List A) → map f (xs ++ ys) ≡ map f xs ++ map f ys
map-append f [] ys = refl
map-append f (x ∷ xs) ys = ap (λ q. f x ∷ q) (map-append f xs ys)

kept-addresses :
    (as' : List (ℕ × ℕ)) (routes : List Route) (k : Ipv4)
    → kept as' routes ≡ some k
    → as' ≡ k.addresses
kept-addresses [] routes k e = cc
kept-addresses (a ∷ as') routes k e = ground (arith, e)

pub capture-addresses :
    (o : Observed) (index r : ℕ) (k : Ipv4)
    → capture o index (some r) ≡ some k
    → map
        (λ a. (r, a.prefix))
        (filter (λ a. same_ip a.address (IpAddr.v4 r)) (addresses_of index o))
      ≡ k.addresses
unfolding capture
capture-addresses o index r k e = kept-addresses _ _ k e

-- Addresses wanted behind others are wanted.
pub want-Found :
    (d : Desired) (front back : List (ℕ × ℕ)) (a : Address)
    → d.addresses ≡ front ++ back
    → wanted_key (map (address4 d.index) back) a ≡ true
    → wanted_key (want d) a ≡ true
want-Found d front back a e h =
    wanted-from_list a _
    ∙ wanted-prepend a (map (address4 d.index) d.addresses) _ (
        ap (λ q. wanted_key (map (address4 d.index) q) a) e
        ∙ ap (λ q. wanted_key q a) (map-append (address4 d.index) front back)
        ∙ wanted-append a (map (address4 d.index) front) _ h)

wanted_settled : (ws : List Address) (a : Address) → wanted_key ws (settled a) ≡ wanted_key ws a
unfolding wanted_key
wanted_settled [] a = refl
wanted_settled (w ∷ ws) a = ap (λ b. names w a || b) (wanted_settled ws a)

pub have-Found :
    (o : Observed) (index r : ℕ) (ws : List Address)
    → All (Found r ws) (addresses_of index o)
    → All (Found r ws) (have o index)
have-Found o index r ws h =
    let managed = filter (λ a. is_managed a.address) (addresses_of index o) in
    from_list-All address_key (Found r ws) (map settled managed) (
      All-map (Found r ws) settled managed (
        All-imp _ (λ a. Found r ws (settled a)) managed (λ a k e. wanted_settled ws a ∙ k.0 e)
          (All-filter (Found r ws) (λ a. is_managed a.address) (addresses_of index o) h)))
