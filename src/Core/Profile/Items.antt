-- ===== src/Core/Profile/Items.antt =====
-- netd-core/src/profile.rs: what holds of the result of a chain of readers, and of static addresses read.
use netd.Base.{
  ℕ, ◌≤◌, ◌≡◌, refl, inl, inr, Option, none, some, List, [], ◌∷◌, arith, leb, leb→le, Bool-cases,
  Option-cases, All,
}
use mathlib.Core.Path.{subst}
use netd.Base.Text.{parse_ip, parse_uint}
use netd.Core.Hostname.{trim}
use netd.Core.Profile.{StaticAddress, AddressConfig}
use netd.Core.Profile.Values.{
  Result, ok, err, and_then, parse_cidr, max_prefix, split_slash, shaped,
}
use netd.Core.Profile.Tree.{read_items}

module _ {B : Type 0} (P : B → Type 0) where
  pub ok_transport : (a b : B) → ok a ≡ ok b → P a → P b
  ok_transport a b h p = subst P (ground arith) p

  -- What holds of a chain's result, whatever the first link gave.
  pub and_then_each :
      {A : Type 0} (r : Result A) (f : A → Result B) (b : B)
      → ((a : A) → r ≡ ok a → f a ≡ ok b → P b)
      → and_then r f ≡ ok b
      → P b
  and_then_each (ok a) f b each h = each a refl h
  and_then_each (err p e) f b each h = cc

  pub shaped_each :
      {A : Type 0} (path name : List ℕ) (o : Option A) (f : A → Result B) (b : B)
      → ((a : A) → o ≡ some a → f a ≡ ok b → P b)
      → shaped path name o f ≡ ok b
      → P b
  shaped_each path name none f b each h = cc
  shaped_each path name (some a) f b each h = each a refl h

-- An MTU that is set is 68 at least.
abbrev pub IsFit : Option ℕ → Type 0
IsFit none = Unit
IsFit (some m) = 68 ≤ m

abbrev pub FitsFamily : StaticAddress → Type 0
FitsFamily s = s.prefix ≤ max_prefix s.address

-- What the loop over values keeps.
abbrev pub IsSoundConfig : AddressConfig → Type 0
IsSoundConfig a = IsFit a.mtu × All FitsFamily a.statics

pub parse_cidr-FitsFamily : (s : List ℕ) (a : StaticAddress) → parse_cidr s ≡ some a → FitsFamily a
unfolding parse_cidr
parse_cidr-FitsFamily s a h = elim (Option-cases (split_slash s)) [
  | inl n ↦ ground (arith, h, n)
  | inr (halves, s1) ↦ elim (Option-cases (parse_ip (trim halves.0))) [
    | inl n ↦ ground (arith, h, s1, n)
    | inr (ip, s2) ↦ elim (Option-cases (parse_uint 256 (trim halves.1))) [
      | inl n ↦ ground (arith, h, s1, s2, n)
      | inr (n, s3) ↦ elim (Bool-cases (leb n (max_prefix ip))) [
        | inl b ↦
            let cidr : StaticAddress = record { address = ip; prefix = n } in
            let same : cidr ≡ a = ground (arith, h, s1, s2, s3, b) in
            subst FitsFamily same (leb→le n (max_prefix ip) b)
        | inr b ↦ ground (arith, h, s1, s2, s3, b)
      ]
    ]
  ]
]

pub read_items-All :
    {A : Type 0} (P : A → Type 0) (path name : List ℕ) (read : List ℕ → Option A)
    → ((s : List ℕ) (a : A) → read s ≡ some a → P a)
    → (ss : List (List ℕ)) (as' : List A) → read_items path name read ss ≡ ok as'
    → All P as'
unfolding read_items
read_items-All P path name read each [] as' h = ok_transport (All P) [] as' h tt
read_items-All P path name read each (s ∷ ss) as' h = elim (Option-cases (read s)) [
  | inl n ↦ ground (arith, h, n)
  | inr (a, e) ↦
      and_then_each (All P) (read_items path name read ss) (λ rest. ok (a ∷ rest)) as'
        (λ rest ran same.
          ok_transport (All P) (a ∷ rest) as' same
            (each s a e, read_items-All P path name read each ss rest ran))
        (rw (e, read_items) at h)
]
