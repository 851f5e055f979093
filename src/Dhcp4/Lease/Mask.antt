-- ===== src/Dhcp4/Lease/Mask.antt =====
-- Which masks `from_ack` takes a prefix from (dhcp4/src/packet.rs): `m | (m - 1)` has all bits set
-- exactly where `m` is ones followed by zeros.
use netd.Base.{
  ℕ, zero, suc, ◌+◌, ◌-◌, ◌*◌, ◌/◌, ◌%◌, ◌^◌, ◌≤◌, ◌<◌, max, bit_or, ◌≡◌, refl, sym, ap, ◌∙◌, ◌≢◌,
  ◌⊎◌, inl, inr, Bool, true, false, ◌&&◌, some, arith, ◌==◌, Bool-cases,
}
use Prim.Native.Nat.{digits, bit_or-bitwise}
use native.Mathlib.Nat.{pow-suc}
use native.Mathlib.Decide.{dec_lt}
use netd.Dhcp4.Code
use netd.Dhcp4.Options.{Options, Ipv4Addr, ipv4}
use netd.Dhcp4.Lease.{is_mask, mask_prefix, count_ones, classful_prefix}

-- `a | b` by halving `a`, `d` times at most. The native operation stands for it at `d = a`.
abbrev or_by : ℕ → ℕ → ℕ → ℕ
or_by d a b = digits (λ (t : ℕ). t) max d a b

one_round_more : (d a b : ℕ) → a ≤ d → or_by (suc d) a b ≡ or_by d a b
one_round_more zero zero b h = refl
one_round_more zero (suc a) b h = elim h [ ]
one_round_more (suc d) zero b h = refl
one_round_more (suc d) (suc a) b h =
    let half : suc a / 2 ≤ d = omega arith in
    omega (arith, one_round_more d (suc a / 2) (b / 2) half)

or_by-bit_or : (d a b : ℕ) → a ≤ d → or_by d a b ≡ bit_or a b
or_by-bit_or zero a b h = let e : a ≡ 0 = omega arith in rw e (sym (bit_or-bitwise 0 b))
or_by-bit_or (suc d) a b h = elim (dec_lt d a) [
  | yes last ↦ let e : a ≡ suc d = omega arith in rw e (sym (bit_or-bitwise (suc d) b))
  | no more ↦
      let below : a ≤ d = omega arith in one_round_more d a b below ∙ or_by-bit_or d a b below
]

-- A disjunction of a positive number by that of the halves.
or_halves : (a b : ℕ) → 0 < a → bit_or a b ≡ bit_or (a / 2) (b / 2) * 2 + max (a % 2) (b % 2)
or_halves zero b h = elim h [ ]
or_halves (suc a) b h =
    let half : suc a / 2 ≤ a = omega arith in
    omega (arith, bit_or-bitwise (suc a) b, or_by-bit_or a (suc a / 2) (b / 2) half)

or_same : (bound m : ℕ) → m < bound → bit_or m m ≡ m
or_same zero m h = elim h [ ]
or_same (suc bound) zero h = bit_or-bitwise 0 0
or_same (suc bound) (suc m) h =
    let half : suc m / 2 < bound = omega arith in
    omega (arith, or_halves (suc m) (suc m) (omega arith), or_same bound (suc m / 2) half)

-- The predecessor of an odd number differs in the last digit alone, that of an even one does not.
or_pred_odd : (m : ℕ) → m % 2 ≡ 1 → bit_or m (m - 1) ≡ m
or_pred_odd m odd =
    let half : (m - 1) / 2 ≡ m / 2 = omega arith in
    let step = or_halves m (m - 1) (omega arith) in
    omega (arith, rw half at step, or_same (m / 2 + 1) (m / 2) (omega arith))

or_pred_even : (m : ℕ) → m ≢ 0 → m % 2 ≡ 0 → bit_or m (m - 1) ≡ bit_or (m / 2) (m / 2 - 1) * 2 + 1
or_pred_even m ne even =
    let half : (m - 1) / 2 ≡ m / 2 - 1 = omega arith in
    let step = or_halves m (m - 1) (omega arith) in omega (arith, rw half at step)

-- A number below 2 ^ n that gives all ones with its predecessor is ones above zeros.
ones_above_zeros :
    (n m : ℕ)
    → m < 2 ^ n
    → m ≢ 0
    → bit_or m (m - 1) ≡ 2 ^ n - 1
    → (k : ℕ) × (k < n) × (m ≡ 2 ^ n - 2 ^ k)
ones_above_zeros zero m lt ne e = absurd (ne (omega arith))
ones_above_zeros (suc n) m lt ne e =
    let double : 2 ^ suc n ≡ 2 ^ n * 2 = pow-suc 2 n in
    elim (parity m) [
      | inl odd ↦ (0, omega arith, omega (arith, or_pred_odd m odd))
      | inr even ↦
          let (k, lt', e') =
            ones_above_zeros n (m / 2) (omega arith) (omega arith)
              (omega (arith, or_pred_even m ne even)) in
          let double' : 2 ^ suc k ≡ 2 ^ k * 2 = pow-suc 2 k in (suc k, omega arith, omega arith)
    ]
  where
    parity : (x : ℕ) → (x % 2 ≡ 1) ⊎ (x % 2 ≡ 0)
    parity x = omega arith

-- The mask of 32 - k ones.
abbrev pub ones : ℕ → ℕ
ones k = 2 ^ 32 - 2 ^ k

-- The masks with fewer than `n` zeros are read right.
read_right : ℕ → Bool
read_right zero = true
read_right (suc k) = (is_mask (ones k) && count_ones 32 (ones k) == 32 - k) && read_right k

all_read_right : read_right 32 ≡ true
unfolding read_right count_ones
all_read_right = refl

ones_read :
    (n k : ℕ)
    → read_right n ≡ true
    → k < n
    → (is_mask (ones k) ≡ true) × (count_ones 32 (ones k) ≡ 32 - k)
unfolding read_right
ones_read zero k e h = elim h [ ]
ones_read (suc n) k e h = elim (dec_lt k n) [
  | yes below ↦ ones_read n k (ground arith) below
  | no top ↦ let same : k ≡ n = omega arith in rw same (ground arith)
]

abbrev pub IsOnes : ℕ → Type 0
IsOnes m = (k : ℕ) × (k < 32) × (m ≡ ones k)

is_mask-IsOnes : (m : ℕ) → m < 2 ^ 32 → is_mask m ≡ true → IsOnes m
is_mask-IsOnes m lt h = ones_above_zeros 32 m lt (ground arith) (ground arith)

mask_prefix-ones :
    (o : Options) (a : Ipv4Addr) (k : ℕ)
    → k < 32
    → ipv4 Code.subnet_mask o ≡ some (ones k)
    → mask_prefix o a ≡ 32 - k
unfolding mask_prefix
mask_prefix-ones o a k h e =
    let (mask, count) = ones_read 32 k all_read_right h in rw e (rw (mask, count) (omega arith))

mask_prefix-other :
    (o : Options) (a : Ipv4Addr) (m : ℕ)
    → is_mask m ≡ false
    → ipv4 Code.subnet_mask o ≡ some m
    → mask_prefix o a ≡ classful_prefix a
unfolding mask_prefix
mask_prefix-other o a m h e = rw e (rw h)

-- A mask of 32 - k ones above k zeros gives the prefix 32 - k, and every other mask the classful
-- prefix of the address.
pub mask_prefix_lem :
    (o : Options) (a : Ipv4Addr) (m : ℕ)
    → m < 2 ^ 32
    → ipv4 Code.subnet_mask o ≡ some m
    → ((k : ℕ) × (k < 32) × (m ≡ ones k) × (mask_prefix o a ≡ 32 - k))
      ⊎ ((¬ (IsOnes m)) × (mask_prefix o a ≡ classful_prefix a))
mask_prefix_lem o a m lt e = elim (Bool-cases (is_mask m)) [
  | inl h ↦
      let (k, less, same) = is_mask-IsOnes m lt h in
      inl (k, less, same, mask_prefix-ones o a k less (e ∙ ap some same))
  | inr h ↦
      let odd : ¬ (IsOnes m) = λ r. cc (ap is_mask r.2, (ones_read 32 r.0 all_read_right r.1).0) in
      inr (odd, mask_prefix-other o a m h e)
]
