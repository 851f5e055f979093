-- ===== src/Base/Text.antt =====
-- Texts as the lists of their characters' numbers, and the readers of numbers and addresses that the
-- standard library has (`from_str`).
use netd.Base.{
  ◌>>=◌, ℕ, zero, suc, ◌+◌, ◌-◌, ◌*◌, ◌/◌, ◌%◌, ◌^◌, Bool, true, false, ◌&&◌, ◌||◌, not, Option,
  none, some, List, [], ◌∷◌, ◌++◌, ltb, leb, ◌==◌, if◌then◌else◌, or_else, map_option, length,
  replicate,
}
use netd.Base.Net.{IpAddr}
use netd.Base.Bytes.{from_be32}
use Prim.Native.Char.{code}
use Prim.Native.String.{String}

abbrev pub codes : String → List ℕ
codes String.[] = []
codes (String.◌∷◌ c s) = code c ∷ codes s

-- The value of a digit; 16 where it is none.
abbrev pub digit : ℕ → ℕ
digit c =
    if leb b'0' c && leb c b'9'
    then c - b'0'
    else if leb b'a' c && leb c b'f'
    then c - b'a' + 10
    else if leb b'A' c && leb c b'F'
    then c - b'A' + 10
    else 16

-- The digits in front: their value behind `value`, their count behind `count`, and the rest.
unfoldable pub digits : ℕ → List ℕ → ℕ → ℕ → ℕ × ℕ × List ℕ
digits radix [] value count = (value, count, [])
digits radix (c ∷ cs) value count =
    let more = digits radix cs (value * radix + digit c) (count + 1) in
    if ltb (digit c) radix then more else (value, count, c ∷ cs)

abbrev pub starts_with_zero : List ℕ → Bool
starts_with_zero [] = false
starts_with_zero (c ∷ cs) = c == b'0'

-- `read_number` of the address parser: digits of `max_digits` at most, with a value below `limit`.
unfoldable pub read_number : ℕ → ℕ → Bool → ℕ → List ℕ → Option (ℕ × List ℕ)
read_number radix max_digits zero_prefix limit cs =
    let (value, count, rest) = digits radix cs 0 0 in
    if count == 0
      || (ltb max_digits count
          || ((not zero_prefix && (starts_with_zero cs && ltb 1 count)) || leb limit value))
    then none
    else some (value, rest)

abbrev pub read_char : ℕ → List ℕ → Option (List ℕ)
read_char c [] = none
read_char c (d ∷ ds) = if d == c then some ds else none

abbrev pub octet : List ℕ → Option (ℕ × List ℕ)
octet cs = read_number 10 3 false 256 cs

unfoldable pub read_ipv4 : List ℕ → Option (ℕ × List ℕ)
read_ipv4 cs = do
  (a, r0) ← octet cs
  s0 ← read_char b'.' r0
  (b, r1) ← octet s0
  s1 ← read_char b'.' r1
  (c, r2) ← octet s1
  s2 ← read_char b'.' r2
  (d, r3) ← octet s2
  some (from_be32 a b c d, r3)

-- A colon, but in front of the first group.
abbrev pub separated : ℕ → List ℕ → Option (List ℕ)
separated zero cs = some cs
separated (suc i) cs = read_char b':' cs

-- The groups of an IPv6 address, `left` at most, and whether they end in an IPv4 address.
unfoldable pub read_groups : ℕ → ℕ → List ℕ → List ℕ × Bool × List ℕ
read_groups zero i cs = ([], false, cs)
read_groups (suc left) i cs = elim (if ltb 0 left then separated i cs >>= read_ipv4 else none) [
  | some found ↦ (found.0 / 2 ^ 16 ∷ found.0 % 2 ^ 16 ∷ [], true, found.1)
  | none ↦ elim (separated i cs >>= read_number 16 4 true (2 ^ 16)) [
    | none ↦ ([], false, cs)
    | some found ↦
        let (more, ends, rest) = read_groups left (i + 1) found.1 in (found.0 ∷ more, ends, rest)
  ]
]

unfoldable pub of_groups : ℕ → List ℕ → ℕ
of_groups value [] = value
of_groups value (g ∷ gs) = of_groups (value * 2 ^ 16 + g) gs

unfoldable pub read_ipv6 : List ℕ → Option (ℕ × List ℕ)
read_ipv6 cs =
    let (head, ends, rest) = read_groups 8 0 cs in
    if length head == 8 then some (of_groups 0 head, rest) else if ends then none else (do
      s0 ← read_char b':' rest
      s1 ← read_char b':' s0
      let (tail, _, last) = read_groups (8 - (length head + 1)) 0 s1
      some (of_groups 0 (head ++ (replicate (8 - (length head + length tail)) 0 ++ tail)), last))

-- Nothing is left.
abbrev pub all_read : {A : Type 0} → A × List ℕ → Option A
all_read (a, []) = some a
all_read (a, c ∷ cs) = none

abbrev pub to_v4 : ℕ × List ℕ → IpAddr × List ℕ
to_v4 (a, cs) = (IpAddr.v4 a, cs)

abbrev pub to_v6 : ℕ × List ℕ → IpAddr × List ℕ
to_v6 (a, cs) = (IpAddr.v6 a, cs)

-- `parse::<IpAddr>`
unfoldable pub parse_ip : List ℕ → Option IpAddr
parse_ip cs =
    or_else (map_option to_v4 (read_ipv4 cs)) (map_option to_v6 (read_ipv6 cs)) >>= all_read

abbrev pub without_plus : List ℕ → List ℕ
without_plus [] = []
without_plus (c ∷ cs) = if c == b'+' then cs else c ∷ cs

abbrev pub all_digits : ℕ → ℕ × ℕ × List ℕ → Option ℕ
all_digits limit (value, count, []) = if count == 0 || leb limit value then none else some value
all_digits limit (value, count, c ∷ cs) = none

-- `parse` to an unsigned integer below `limit`.
unfoldable pub parse_uint : ℕ → List ℕ → Option ℕ
parse_uint limit cs = all_digits limit (digits 10 (without_plus cs) 0 0)

-- The decimal digits in front of `tail`, on as many rounds as the number is large.
unfoldable pub decimal : ℕ → ℕ → List ℕ → List ℕ
decimal zero n tail = tail
decimal (suc rounds) n tail =
    let next = (b'0' + n % 10) ∷ tail in
    let more = decimal rounds (n / 10) next in if n / 10 == 0 then next else more
