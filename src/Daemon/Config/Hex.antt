-- ===== src/Daemon/Config/Hex.antt =====
-- netd/src/config.rs: `parse_hex` reads what `format_hex` writes.
use netd.Base.{
  ℕ, ◌+◌, ◌*◌, ◌/◌, ◌%◌, ◌<◌, ◌≡◌, refl, ap, inl, inr, true, some, List, [], ◌∷◌, arith, ltb,
  Bool-cases, length, filter,
}
use netd.Base.Bytes.{IsBytes}
use netd.Base.Text.{digit}
use netd.Daemon.Config.{is_ascii_hexdigit, all_allowed, pairs, parse_hex, hex_char, format_hex}

digit-hex_char : (d : ℕ) → d < 16 → digit (hex_char d) ≡ d
digit-hex_char d h = elim (Bool-cases (ltb d 10)) [
  | inl e ↦ rw e (ground (arith, e))
  | inr e ↦ rw e (ground (arith, e))
]

-- Both characters of a byte are digits.
hex_chars :
    (b : ℕ)
    → b < 256
    → (ltb (digit (hex_char (b / 16))) 16 ≡ true) × (ltb (digit (hex_char (b % 16))) 16 ≡ true)
hex_chars b h =
    let high = digit-hex_char (b / 16) (omega (arith, h)) in
    let low = digit-hex_char (b % 16) (omega arith) in
    (ground (arith, high, h), ground (arith, low))

-- The digits alone.
plain_hex : List ℕ → List ℕ
plain_hex [] = []
plain_hex (b ∷ bs) = hex_char (b / 16) ∷ hex_char (b % 16) ∷ plain_hex bs

pairs-plain_hex : (bs : List ℕ) → IsBytes bs → pairs (plain_hex bs) ≡ some bs
unfolding pairs plain_hex
pairs-plain_hex [] h = refl
pairs-plain_hex (b ∷ bs) h =
    let high = digit-hex_char (b / 16) (omega (arith, h)) in
    let low = digit-hex_char (b % 16) (omega arith) in
    let same : digit (hex_char (b / 16)) * 16 + digit (hex_char (b % 16)) ≡ b =
      omega (arith, high, low) in
    rw (pairs-plain_hex bs h.1) (ap (λ x. some (x ∷ bs)) same)

length-plain_hex : (bs : List ℕ) → length (plain_hex bs) ≡ 2 * length bs
unfolding plain_hex
length-plain_hex [] = refl
length-plain_hex (b ∷ bs) = omega (arith, length-plain_hex bs)

filter-format_hex :
    (bs : List ℕ) → IsBytes bs → filter is_ascii_hexdigit (format_hex bs) ≡ plain_hex bs
unfolding filter format_hex plain_hex
filter-format_hex [] h = refl
filter-format_hex (b ∷ []) h = let (is_high, is_low) = hex_chars b h.0 in rw (is_high, is_low) refl
filter-format_hex (b ∷ c ∷ bs) h =
    let (is_high, is_low) = hex_chars b h.0 in
    rw (is_high, is_low)
      (ap (λ t. hex_char (b / 16) ∷ hex_char (b % 16) ∷ t) (filter-format_hex (c ∷ bs) h.1))

all_allowed-format_hex : (bs : List ℕ) → IsBytes bs → all_allowed (format_hex bs) ≡ true
unfolding all_allowed format_hex
all_allowed-format_hex [] h = refl
all_allowed-format_hex (b ∷ []) h =
    let (is_high, is_low) = hex_chars b h.0 in rw (is_high, is_low) refl
all_allowed-format_hex (b ∷ c ∷ bs) h =
    let (is_high, is_low) = hex_chars b h.0 in
    rw (is_high, is_low) (all_allowed-format_hex (c ∷ bs) h.1)

-- Any bytes, one at least, are read back from what is written for them.
pub parse_hex-format_hex :
    (b : ℕ) (bs : List ℕ) → IsBytes (b ∷ bs) → parse_hex (format_hex (b ∷ bs)) ≡ some (b ∷ bs)
unfolding parse_hex
parse_hex-format_hex b bs h =
    let digits = filter-format_hex (b ∷ bs) h in
    let even = length-plain_hex (b ∷ bs) in
    let allowed = all_allowed-format_hex (b ∷ bs) h in
    let read = pairs-plain_hex (b ∷ bs) h in rw (digits, allowed, even) (ground (arith, read))
