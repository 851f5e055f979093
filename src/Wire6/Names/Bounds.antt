-- ===== src/Wire6/Names/Bounds.antt =====
-- The loops of `domain_list` in ndp/src/packet.rs, and what they yield.
use netd.Base.{
  length-map, ℕ, zero, suc, ◌+◌, ◌≤◌, ◌<◌, ◌≡◌, refl, ◌≢◌, ◌⊎◌, inl, inr, true, ◌&&◌, not, Option,
  none, some, List, [], ◌∷◌, ◌++◌, map, arith, ltb, ◌==◌, if◌then◌else◌, Bool-cases, Loop, done,
  stuck, run_or-done, length, take, drop, All, All-append, length-append, length-take, length-drop,
}
use mathlib.Core.Path.{subst}
use netd.Base.Utf8.{from_utf8_lossy_ascii}
use netd.Wire6.Names.{
  domain_list, domain_loop, label_loop, push_label, push_name, is_empty, all_graphic, all_zero,
  to_ascii_lowercase,
}

label_loop-ne-stuck :
    (fuel : ℕ) (bytes name : List ℕ) → length bytes < fuel → label_loop fuel bytes name ≢ stuck
unfolding label_loop
label_loop-ne-stuck zero bytes name h = absurd (omega arith)
label_loop-ne-stuck (suc fuel) [] name h = λ e. cc
label_loop-ne-stuck (suc fuel) (len ∷ rest) name h = ground (
  arith,
  length-drop len rest,
  label_loop-ne-stuck fuel (drop len rest) (push_label name (take len rest)),
)

label_loop-shorter :
    (fuel : ℕ) (bytes name n rest : List ℕ)
    → label_loop fuel bytes name ≡ done (some (n, rest))
    → length rest < length bytes
unfolding label_loop
label_loop-shorter zero bytes name n rest h = cc
label_loop-shorter (suc fuel) [] name n rest h = cc
label_loop-shorter (suc fuel) (len ∷ more) name n rest h = ground (
  arith,
  length-drop len more,
  label_loop-shorter fuel (drop len more) (push_label name (take len more)) n rest,
)

domain_loop-ne-stuck :
    (fuel : ℕ) (bytes : List ℕ) (out : List (List ℕ))
    → length bytes < fuel
    → domain_loop fuel bytes out ≢ stuck
unfolding domain_loop
domain_loop-ne-stuck zero bytes out h = absurd (omega arith)
domain_loop-ne-stuck (suc fuel) bytes out h =
    go (domain_loop-ne-stuck fuel) (label_loop (length bytes + 1) bytes []) refl
  where
    go :
        ((v : List ℕ) (o : List (List ℕ)) → length v < fuel → domain_loop fuel v o ≢ stuck)
        → (r : Loop (Option (List ℕ × List ℕ))) → label_loop (length bytes + 1) bytes [] ≡ r
        → domain_loop (suc fuel) bytes out ≢ stuck
    go ih stuck e = absurd (label_loop-ne-stuck (length bytes + 1) bytes [] (omega arith) e)
    go ih (done none) e = rw (e, domain_loop) (ground arith)
    go ih (done (some (name, rest))) e =
        rw (e, domain_loop)
          (ground (
            arith,
            label_loop-shorter (length bytes + 1) bytes [] name rest e,
            ih rest (push_name out name),
          ))

-- Both loops end on every input.
pub domain_list-returns :
    (bytes : List ℕ) → domain_loop (length bytes + 1) bytes [] ≡ done (domain_list bytes)
unfolding domain_list
domain_list-returns bytes =
    run_or-done [] (domain_loop (length bytes + 1) bytes [])
      (domain_loop-ne-stuck (length bytes + 1) bytes [] (omega arith))

-- A printable byte that is no capital letter.
abbrev pub IsNameByte : ℕ → Type 0
IsNameByte b = (0x21 ≤ b) × (b ≤ 0x7e) × ((b < b'A') ⊎ (b'Z' < b))

abbrev pub IsName : List ℕ → Type 0
IsName n = (length n ≤ 253) × All IsNameByte n

lower_graphic : (v : List ℕ) → all_graphic v ≡ true → All IsNameByte (map to_ascii_lowercase v)
unfolding all_graphic
lower_graphic [] h = tt
lower_graphic (b ∷ v) h = (ground arith, lower_graphic v (ground arith))

graphic_ascii : (v : List ℕ) → all_graphic v ≡ true → All (λ b. b < 0x80) v
unfolding all_graphic
graphic_ascii [] h = tt
graphic_ascii (b ∷ v) h = (ground arith, graphic_ascii v (ground arith))

push_label-IsName :
    (name label : List ℕ)
    → IsName name
    → all_graphic label ≡ true
    → length name + length label + 1 ≤ 253
    → IsName (push_label name label)
push_label-IsName name label n g h =
    rw (from_utf8_lossy_ascii label (graphic_ascii label g)) (go name n h)
  where
    low : List ℕ
    low = map to_ascii_lowercase label

    go :
        (m : List ℕ)
        → IsName m
        → length m + length label + 1 ≤ 253
        → IsName ((if is_empty m then [] else m ++ (b'.' ∷ [])) ++ low)
    go [] k le = (omega (arith, length-map label to_ascii_lowercase), lower_graphic label g)
    go (b ∷ m) k le =
        let dotted = (b ∷ m) ++ (b'.' ∷ []) in
        (
          omega (
            arith,
            length-map label to_ascii_lowercase,
            length-append dotted low,
            length-append (b ∷ m) (b'.' ∷ []),
          ),
          All-append IsNameByte dotted low
              (All-append IsNameByte (b ∷ m) (b'.' ∷ []) k.1 (omega arith)) (lower_graphic label g),
        )

label_loop-IsName :
    (fuel : ℕ) (bytes name n rest : List ℕ)
    → IsName name
    → label_loop fuel bytes name ≡ done (some (n, rest))
    → IsName n
unfolding label_loop
label_loop-IsName zero bytes name n rest k h = cc
label_loop-IsName (suc fuel) [] name n rest k h = cc
label_loop-IsName (suc fuel) (len ∷ more) name n rest k h =
    let label = take len more in
    elim (Bool-cases (len == 0)) [
      | inl p ↦ subst IsName (ground arith) k
      | inr p ↦ elim (Bool-cases (all_graphic label)) [
        | inr g ↦ absurd (ground (arith, g))
        | inl g ↦
            let fits : length name + length label + 1 ≤ 253 =
              ground (arith, length-take len more) in
            label_loop-IsName fuel (drop len more) (push_label name label) n rest
              (push_label-IsName name label k g fits) (ground arith)
      ]
    ]

push_name-bounds :
    (out : List (List ℕ)) (name : List ℕ)
    → All IsName out
    → IsName name
    → All IsName (push_name out name) × (length (push_name out name) ≤ length out + 1)
push_name-bounds out [] o k = (o, omega arith)
push_name-bounds out (b ∷ name) o k = (
  All-append IsName out ((b ∷ name) ∷ []) o (k, tt),
  omega (arith, length-append out ((b ∷ name) ∷ [])),
)

abbrev AreNames : List (List ℕ) → Type 0
AreNames out = (length out ≤ 16) × All IsName out

domain_loop-AreNames :
    (fuel : ℕ) (bytes : List ℕ) (out r : List (List ℕ))
    → AreNames out
    → domain_loop fuel bytes out ≡ done r
    → AreNames r
unfolding domain_loop
domain_loop-AreNames zero bytes out r k h = cc
domain_loop-AreNames (suc fuel) bytes out r k h =
    elim (Bool-cases (not (is_empty bytes) && ltb (length out) 16)) [
      | inr t ↦ subst AreNames (ground (arith, t)) k
      | inl t ↦ go (domain_loop-AreNames fuel) (label_loop (length bytes + 1) bytes []) refl t
    ]
  where
    go :
        ((v : List ℕ) (o q : List (List ℕ))
          → AreNames o
          → domain_loop fuel v o ≡ done q
          → AreNames q)
        → (l : Loop (Option (List ℕ × List ℕ))) → label_loop (length bytes + 1) bytes [] ≡ l
        → (not (is_empty bytes) && ltb (length out) 16) ≡ true
        → AreNames r
    go ih stuck e t = absurd (ground (arith, e, t))
    go ih (done none) e t = subst AreNames (ground (arith, e, t)) k
    go ih (done (some (name, rest))) e t =
        let n = label_loop-IsName (length bytes + 1) bytes [] name rest (omega arith) e in
        let (each, one_more) = push_name-bounds out name k.1 n in
        let k' : AreNames (push_name out name) = (ground (arith, one_more, t), each) in
        elim (Bool-cases (all_zero rest)) [
          | inl z ↦ subst AreNames (ground (arith, e, t, z)) k'
          | inr z ↦ ih rest (push_name out name) r k' (ground (arith, e, t, z))
        ]

-- Of whatever bytes come in, at most 16 names are taken, each of at most 253 printable bytes with no
-- capital letter.
pub domain_list-bounds :
    (bytes : List ℕ) → (length (domain_list bytes) ≤ 16) × All IsName (domain_list bytes)
domain_list-bounds bytes =
    domain_loop-AreNames (length bytes + 1) bytes [] (domain_list bytes) (omega arith, tt)
      (domain_list-returns bytes)
