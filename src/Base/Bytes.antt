-- ===== src/Base/Bytes.antt =====
-- Bytes are numbers below 256, and a byte slice is a list of them. Words of `w` bits are numbers
-- below `2 ^ w`; `to_be_bytes`, `from_be_bytes` and slice equality as the standard library has them.
use netd.Base.{
  ℕ, Option, none, some, take, drop, if◌then◌else◌, ◌+◌, ◌*◌, ◌/◌, ◌%◌, ◌^◌, ◌<◌, ◌≤◌, ◌≡◌, refl,
  Bool, true, false, ◌&&◌, List, [], ◌∷◌, ◌==◌, length, get_or, All, arith, leb, ltb, ◌||◌,
}

abbrev pub IsByte : ℕ → Type 0
IsByte b = b < 256

abbrev pub IsBytes : List ℕ → Type 0
IsBytes = All IsByte

abbrev pub u16_mod : ℕ
u16_mod = 2 ^ 16

abbrev pub u32_mod : ℕ
u32_mod = 2 ^ 32

abbrev pub u64_mod : ℕ
u64_mod = 2 ^ 64

-- `v as u8`
abbrev pub as_u8 : ℕ → ℕ
as_u8 v = v % 256

abbrev pub as_u16 : ℕ → ℕ
as_u16 v = v % u16_mod

abbrev pub as_u32 : ℕ → ℕ
as_u32 v = v % u32_mod

abbrev pub be16 : ℕ → List ℕ
be16 v = v / 256 % 256 ∷ v % 256 ∷ []

abbrev pub be32 : ℕ → List ℕ
be32 v = v / 16777216 % 256 ∷ v / 65536 % 256 ∷ v / 256 % 256 ∷ v % 256 ∷ []

abbrev pub from_be16 : ℕ → ℕ → ℕ
from_be16 a b = a * 256 + b

abbrev pub from_be32 : ℕ → ℕ → ℕ → ℕ → ℕ
from_be32 a b c d = ((a * 256 + b) * 256 + c) * 256 + d

pub from_be16-be16 : (v : ℕ) → v < u16_mod → from_be16 (v / 256 % 256) (v % 256) ≡ v
from_be16-be16 v h = omega arith

pub from_be32-be32 :
    (v : ℕ)
    → v < u32_mod
    → from_be32 (v / 16777216 % 256) (v / 65536 % 256) (v / 256 % 256) (v % 256) ≡ v
from_be32-be32 v h = omega arith

-- Indexing in bounds; the code tests the length before.
abbrev pub byte_at : List ℕ → ℕ → ℕ
byte_at v i = get_or v i 0

-- `v.get(..n)?`: the first `n` bytes and what follows them, if there are so many.
unfoldable pub split : ℕ → List ℕ → Option (List ℕ × List ℕ)
split n v = if leb n (length v) then some (take n v, drop n v) else none

pub split-some :
    (n : ℕ) (v a b : List ℕ)
    → split n v ≡ some (a, b)
    → (n ≤ length v) × (a ≡ take n v) × (b ≡ drop n v)
unfolding split
split-some n v a b h = ground arith

unfoldable pub bytes_eq : List ℕ → List ℕ → Bool
bytes_eq [] [] = true
bytes_eq [] (b ∷ bs) = false
bytes_eq (a ∷ as') [] = false
bytes_eq (a ∷ as') (b ∷ bs) = a == b && bytes_eq as' bs

pub bytes_eq_sound : (a b : List ℕ) → bytes_eq a b ≡ true → a ≡ b
unfolding bytes_eq
bytes_eq_sound [] [] h = refl
bytes_eq_sound [] (b ∷ bs) h = cc
bytes_eq_sound (a ∷ as') [] h = cc
bytes_eq_sound (a ∷ as') (b ∷ bs) h = ground (arith, bytes_eq_sound as' bs)

pub bytes_eq_refl : (a : List ℕ) → bytes_eq a a ≡ true
unfolding bytes_eq
bytes_eq_refl [] = refl
bytes_eq_refl (a ∷ as') = ground (arith, bytes_eq_refl as')

-- The order of two lists of numbers.
unfoldable pub less : List ℕ → List ℕ → Bool
less [] [] = false
less [] (b ∷ bs) = true
less (a ∷ as') [] = false
less (a ∷ as') (b ∷ bs) = ltb a b || (a == b && less as' bs)
