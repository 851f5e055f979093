-- ===== src/Daemon/Config.antt =====
-- netd/src/config.rs: the identifiers that are written in hexadecimal.
pub mod Hex
use netd.Base.{
  ◌>>=◌, ℕ, zero, suc, ◌+◌, ◌-◌, ◌*◌, ◌/◌, ◌%◌, ◌^◌, ◌≤◌, ◌<◌, min, max, bit_and, bit_or, bit_xor,
  ◌≡◌, refl, sym, ap, ◌∙◌, ◌≢◌, ◌⊎◌, ◌↔◌, inl, inr, Bool, true, false, ◌&&◌, ◌||◌, not, Option,
  none, some, List, [], ◌∷◌, ◌++◌, map, arith, ltb, leb, ◌==◌, if◌then◌else◌, ltb→lt, lt→ltb,
  leb→le, le→leb, ==_iff, Bool-cases, Option-cases, get_or_else, is_some, or_else, keep_if,
  map_option, Loop, done, stuck, run_or, run_or-done, length, get_elem?, get_or, take, drop,
  replicate, All, All-append, All-take, All-drop, All-replicate, take-append, drop-append,
  length-append, length-take, length-drop, length-replicate, length-map, filter, All-filter,
  All-each, All-map, All-imp,
}
use netd.Base.Text.{digit}

abbrev pub is_ascii_hexdigit : ℕ → Bool
is_ascii_hexdigit c = ltb (digit c) 16

abbrev pub is_ascii_whitespace : ℕ → Bool
is_ascii_whitespace c = c == 0x20 || (c == 0x9 || (c == 0xa || (c == 0xc || c == 0xd)))

abbrev pub is_allowed : ℕ → Bool
is_allowed c = is_ascii_hexdigit c || (c == b':' || (c == b'-' || is_ascii_whitespace c))

unfoldable pub all_allowed : List ℕ → Bool
all_allowed [] = true
all_allowed (c ∷ cs) = is_allowed c && all_allowed cs

-- Two digits to a byte; the number of digits is even.
unfoldable pub pairs : List ℕ → Option (List ℕ)
pairs [] = some []
pairs (c ∷ []) = none
pairs (c ∷ d ∷ cs) = map_option (λ bs. (digit c * 16 + digit d) ∷ bs) (pairs cs)

unfoldable pub parse_hex : List ℕ → Option (List ℕ)
parse_hex s =
    let digits = filter is_ascii_hexdigit s in
    if length digits == 0 || not (length digits % 2 == 0)
    then none
    else if not (all_allowed s)
    then none
    else pairs digits

abbrev pub hex_char : ℕ → ℕ
hex_char d = if ltb d 10 then b'0' + d else b'a' + (d - 10)

unfoldable pub format_hex : List ℕ → List ℕ
format_hex [] = []
format_hex (b ∷ []) = hex_char (b / 16) ∷ hex_char (b % 16) ∷ []
format_hex (b ∷ c ∷ bs) = hex_char (b / 16) ∷ hex_char (b % 16) ∷ b':' ∷ format_hex (c ∷ bs)
