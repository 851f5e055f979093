-- ===== src/Daemon/Framing/Checked.antt =====
-- netd/src/dhcp.rs: the checksum of a header that `ip_udp` writes.
use netd.Base.{
  ℕ, suc, ◌+◌, ◌*◌, ◌/◌, ◌%◌, ◌^◌, ◌≤◌, ◌<◌, ◌≡◌, sym, ap, ◌∙◌, inl, inr, List, [], ◌∷◌, arith, ltb,
  Bool-cases, done, run_or, length, take,
}
use netd.Base.Bytes.{u16_mod, u32_mod, from_be16}
use netd.Daemon.Framing.{sum_words, fold_carries, complement, checksum, ip_header, ip_udp}

-- The sum of the words, with nothing wrapped.
unfoldable pub plain : List ℕ → ℕ
plain [] = 0
plain (a ∷ []) = from_be16 a 0
plain (a ∷ b ∷ bs) = from_be16 a b + plain bs

sum_words-plain : (s : ℕ) (bs : List ℕ) → s + plain bs < u32_mod → sum_words s bs ≡ s + plain bs
unfolding sum_words plain
sum_words-plain s [] h = omega arith
sum_words-plain s (a ∷ []) h = omega arith
sum_words-plain s (a ∷ b ∷ bs) h =
    let word : (s + from_be16 a b) % u32_mod ≡ s + from_be16 a b = omega arith in
    rw word (sum_words-plain (s + from_be16 a b) bs (omega arith) ∙ omega arith)

-- `f` is `s` with its carries added.
abbrev pub Folds : ℕ → ℕ → Type 0
Folds s f = (f < u16_mod) × ((k : ℕ) × (s ≡ f + 65535 * k)) × (0 < s → 0 < f)

fold-small : (rounds s : ℕ) → s < u16_mod → fold_carries (suc rounds) s ≡ done s
unfolding fold_carries
fold-small rounds s h = ground arith

fold-large :
    (rounds s : ℕ)
    → u16_mod ≤ s
    → fold_carries (suc rounds) s ≡ fold_carries rounds (s % 2 ^ 16 + s / 2 ^ 16)
unfolding fold_carries
fold-large rounds s h = ground arith

fold-Folds : (s : ℕ) → s < u32_mod → (f : ℕ) × (fold_carries 3 s ≡ done f) × Folds s f
fold-Folds s h =
    let s1 = s % 2 ^ 16 + s / 2 ^ 16 in
    let s2 = s1 % 2 ^ 16 + s1 / 2 ^ 16 in
    elim (Bool-cases (ltb s u16_mod)) [
      | inl e ↦
          (s, fold-small 2 s (ground (arith, e)), (ground (arith, e), (0, omega arith), λ p. p))
      | inr e ↦ elim (Bool-cases (ltb s1 u16_mod)) [
        | inl e1 ↦ (
          s1,
          fold-large 2 s (ground (arith, e)) ∙ fold-small 1 s1 (ground (arith, e1)),
          (ground (arith, e1), (s / 2 ^ 16, omega arith), λ p. omega arith),
        )
        | inr e1 ↦ (
          s2,
          fold-large 2 s (ground (arith, e))
              ∙ (fold-large 1 s1 (ground (arith, e1)) ∙ fold-small 0 s2 (omega arith)),
          (omega arith, (s / 2 ^ 16 + s1 / 2 ^ 16, omega arith), λ p. omega arith),
        )
      ]
    ]

-- Any two words in place of the checksum are added to the header's sum.
header_total :
    (total src dst hi lo : ℕ)
    → plain (ip_header total src dst hi lo) ≡ plain (ip_header total src dst 0 0) + from_be16 hi lo
unfolding plain
header_total total src dst hi lo = omega arith

header_bounds :
    (total src dst : ℕ)
    → (0 < plain (ip_header total src dst 0 0))
      × (plain (ip_header total src dst 0 0) + u16_mod < u32_mod)
unfolding plain
header_bounds total src dst = (omega arith, omega arith)

checksum-Folds :
    (bs : List ℕ) → plain bs < u32_mod → (f : ℕ) × (checksum bs ≡ complement f) × Folds (plain bs) f
unfolding checksum
checksum-Folds bs h =
    let (f, ran, folds) = fold-Folds (plain bs) h in
    let total : sum_words 0 bs ≡ plain bs = sum_words-plain 0 bs (omega arith) ∙ omega arith in
    (
      f,
      ap (λ t. complement (run_or 0 (fold_carries 3 t))) total
          ∙ ap (λ l. complement (run_or 0 l)) ran,
      folds,
    )

complement_lem :
    (s f k f' k' : ℕ)
    → f < u16_mod
    → s ≡ f + 65535 * k
    → f' < u16_mod
    → s + complement f ≡ f' + 65535 * k'
    → 0 < f'
    → complement f' ≡ 0
complement_lem s f k f' k' a b c d e = omega arith

-- The header of a datagram that `ip_udp` writes, whatever its addresses, ports and payload, has the
-- checksum zero: the receiver's test of it succeeds.
pub checksum-ip_udp :
    (src dst sport dport : ℕ) (payload : List ℕ)
    → checksum (take 20 (ip_udp src dst sport dport payload)) ≡ 0
unfolding ip_udp
checksum-ip_udp src dst sport dport payload =
    let total = 20 + (8 + length payload) in
    let bare = ip_header total src dst 0 0 in
    let (some', large) = header_bounds total src dst in
    let (f, sum, (small, (k, folds), pos)) = checksum-Folds bare (omega arith) in
    let full = ip_header total src dst (checksum bare / 256) (checksum bare % 256) in
    let same : plain full ≡ plain bare + complement f =
      header_total total src dst (checksum bare / 256) (checksum bare % 256) ∙ omega (arith, sum) in
    let (f', sum', (small', (k', folds'), pos')) = checksum-Folds full (omega (arith, same)) in
    sum'
    ∙ complement_lem (plain bare) f k f' k' small folds small' (sym same ∙ folds')
        (pos' (omega (arith, same)))
