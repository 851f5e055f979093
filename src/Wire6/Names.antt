-- ===== src/Wire6/Names.antt =====
-- ndp/src/packet.rs, `domain_list`: a sequence of uncompressed DNS names. dhcp6/src/lib.rs has the same
-- function. A name is the list of its bytes.
pub mod Bounds
use netd.Base.{
  ℕ, zero, suc, ◌+◌, ◌-◌, ◌*◌, ◌/◌, ◌%◌, ◌^◌, ◌≤◌, ◌<◌, min, max, bit_and, bit_or, bit_xor, ◌≡◌,
  refl, sym, ap, ◌∙◌, ◌≢◌, ◌⊎◌, ◌↔◌, inl, inr, Bool, true, false, ◌&&◌, ◌||◌, not, Option, none,
  some, List, [], ◌∷◌, ◌++◌, map, arith, ltb, leb, ◌==◌, if◌then◌else◌, ltb→lt, lt→ltb, leb→le,
  le→leb, ==_iff, Bool-cases, Option-cases, get_or_else, is_some, or_else, keep_if, map_option,
  ◌>>=◌, ◌>>◌, guard, Loop, done, stuck, run_or, run_or-done, length, get_elem?, get_or, take, drop,
  replicate, All, All-append, All-take, All-drop, All-replicate, take-append, drop-append,
  length-append, length-take, length-drop, length-replicate,
}
use netd.Base.Utf8.{from_utf8_lossy}

abbrev pub max_domains : ℕ
max_domains = 16

abbrev pub is_ascii_graphic : ℕ → Bool
is_ascii_graphic b = leb 0x21 b && leb b 0x7e

abbrev pub to_ascii_lowercase : ℕ → ℕ
to_ascii_lowercase b = if leb b'A' b && leb b b'Z' then b + 32 else b

all_graphic : List ℕ → Bool
all_graphic [] = true
all_graphic (b ∷ bs) = is_ascii_graphic b && all_graphic bs

all_zero : List ℕ → Bool
all_zero [] = true
all_zero (b ∷ bs) = b == 0 && all_zero bs

abbrev pub is_empty : List ℕ → Bool
is_empty [] = true
is_empty (b ∷ bs) = false

-- The name with one more label behind its dot.
abbrev pub push_label : List ℕ → List ℕ → List ℕ
push_label name label =
    (if is_empty name then [] else name ++ (b'.' ∷ []))
    ++ map to_ascii_lowercase (from_utf8_lossy label)

-- The inner `loop`: the name with the bytes behind it, and `none` is its `return out`.
label_loop : ℕ → List ℕ → List ℕ → Loop (Option (List ℕ × List ℕ))
label_loop zero bytes name = stuck
label_loop (suc fuel) [] name = done none
label_loop (suc fuel) (len ∷ rest) name =
    let label = take len rest in
    let more = label_loop fuel (drop len rest) (push_label name label) in
    if len == 0
    then done (some (name, rest))
    else if ltb 63 len || (ltb (length rest) len || ltb 253 (length name + len + 1))
    then done none
    else if not (all_graphic label)
    then done none
    else more

abbrev pub push_name : List (List ℕ) → List ℕ → List (List ℕ)
push_name out name = if is_empty name then out else out ++ (name ∷ [])

-- The outer `while`.
pub domain_loop : ℕ → List ℕ → List (List ℕ) → Loop (List (List ℕ))
domain_loop zero bytes out = stuck
domain_loop (suc fuel) bytes out =
    let round : Loop (List (List ℕ)) = elim (label_loop (length bytes + 1) bytes []) [
      | stuck ↦ stuck
      | done none ↦ done out
      | done (some (name, rest)) ↦
          let out' = push_name out name in
          let more = domain_loop fuel rest out' in if all_zero rest then done out' else more
    ] in
    if not (is_empty bytes) && ltb (length out) max_domains then round else done out

-- Every round takes a byte at least.
unfoldable pub domain_list : List ℕ → List (List ℕ)
unfolding domain_loop label_loop all_graphic all_zero
domain_list bytes = run_or [] (domain_loop (length bytes + 1) bytes [])
