-- ===== src/Core/Hostname.antt =====
-- netd-core/src/hostname.rs: the name of the machine. A `String` is the list of its characters here, since
-- the code looks at characters; the reasons for a refusal are constructors in place of their words.
pub mod Labels
mod Examples
use netd.Base.{
  ℕ, zero, suc, ◌+◌, ◌-◌, ◌*◌, ◌/◌, ◌%◌, ◌^◌, ◌≤◌, ◌<◌, min, max, bit_and, bit_or, bit_xor, ◌≡◌,
  refl, sym, ap, ◌∙◌, ◌≢◌, ◌⊎◌, ◌↔◌, inl, inr, Bool, true, false, ◌&&◌, ◌||◌, not, Option, none,
  some, List, [], ◌∷◌, ◌++◌, map, arith, ltb, leb, ◌==◌, if◌then◌else◌, ltb→lt, lt→ltb, leb→le,
  le→leb, ==_iff, Bool-cases, Option-cases, get_or_else, is_some, or_else, keep_if, map_option,
  ◌>>=◌, ◌>>◌, guard, Loop, done, stuck, run_or, run_or-done, length, get_elem?, get_or, take, drop,
  replicate, All, All-append, All-take, All-drop, All-replicate, take-append, drop-append,
  length-append, length-take, length-drop, length-replicate, length-map,
}
use netd.Base.Bytes.{bytes_eq}
use netd.Wire6.Names.{to_ascii_lowercase}

abbrev pub max_len : ℕ
max_len = 63

pub data Refusal : Type 0 where
  no_name : Refusal
  has_space : Refusal
  has_dot : Refusal
  not_allowed : ℕ → Refusal
  too_long : Refusal
  edge_hyphen : Refusal
  is_localhost : Refusal

pub data Checked : Type 0 where
  accepted : List ℕ → Checked
  refused : Refusal → Checked

-- `char::is_whitespace`, the property White_Space.
abbrev pub is_whitespace : ℕ → Bool
is_whitespace c =
    leb 0x9 c && leb c 0xd
    || (c == 0x20
        || (c == 0x85
            || (c == 0xa0
                || (c == 0x1680
                    || (leb 0x2000 c && leb c 0x200a
                        || (c == 0x2028
                            || (c == 0x2029 || (c == 0x202f || (c == 0x205f || c == 0x3000)))))))))

unfoldable pub trim_start : List ℕ → List ℕ
trim_start [] = []
trim_start (c ∷ cs) = if is_whitespace c then trim_start cs else c ∷ cs

abbrev pub is_empty : List ℕ → Bool
is_empty [] = true
is_empty (c ∷ cs) = false

unfoldable pub trim_end : List ℕ → List ℕ
trim_end [] = []
trim_end (c ∷ cs) =
    let rest = trim_end cs in if is_whitespace c && is_empty rest then [] else c ∷ rest

abbrev pub trim : List ℕ → List ℕ
trim cs = trim_end (trim_start cs)

abbrev pub is_ascii_alphanumeric : ℕ → Bool
is_ascii_alphanumeric c =
    leb b'0' c && leb c b'9' || (leb b'A' c && leb c b'Z' || leb b'a' c && leb c b'z')

abbrev pub is_allowed : ℕ → Bool
is_allowed c = is_ascii_alphanumeric c || c == b'-'

-- `find` of a character that is not allowed.
unfoldable pub find_other : List ℕ → Option ℕ
find_other [] = none
find_other (c ∷ cs) = if is_allowed c then find_other cs else some c

abbrev pub starts_with : ℕ → List ℕ → Bool
starts_with h [] = false
starts_with h (c ∷ cs) = c == h

unfoldable pub ends_with : ℕ → List ℕ → Bool
ends_with h [] = false
ends_with h (c ∷ []) = c == h
ends_with h (c ∷ d ∷ cs) = ends_with h (d ∷ cs)

-- localhost
abbrev pub localhost : List ℕ
localhost = b'l' ∷ b'o' ∷ b'c' ∷ b'a' ∷ b'l' ∷ b'h' ∷ b'o' ∷ b's' ∷ b't' ∷ []

abbrev pub eq_ignore_ascii_case : List ℕ → List ℕ → Bool
eq_ignore_ascii_case a b = bytes_eq (map to_ascii_lowercase a) (map to_ascii_lowercase b)

abbrev pub reason_for : ℕ → Refusal
reason_for c = if c == b' ' then has_space else if c == b'.' then has_dot else not_allowed c

-- The tests on a name of allowed characters, each of which is one byte.
abbrev pub check_label : List ℕ → Checked
check_label name =
    if ltb max_len (length name)
    then refused too_long
    else if starts_with b'-' name || ends_with b'-' name
    then refused edge_hyphen
    else if eq_ignore_ascii_case name localhost
    then refused is_localhost
    else accepted name

-- `check` behind the trimming.
unfoldable pub check_trimmed : List ℕ → Checked
check_trimmed name =
    if is_empty name
    then refused no_name
    else elim (find_other name) [ some c ↦ refused (reason_for c) | none ↦ check_label name ]

unfoldable pub check : List ℕ → Checked
check answered = check_trimmed (trim answered)
