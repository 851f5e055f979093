-- ===== src/Daemon/Framing.antt =====
-- netd/src/dhcp.rs: the IPv4 and UDP headers around a message of the DHCP client.
pub mod Checked
pub mod Delivered
use netd.Base.{
  ℕ, zero, suc, ◌+◌, ◌-◌, ◌*◌, ◌/◌, ◌%◌, ◌^◌, ◌≤◌, ◌<◌, min, max, bit_and, bit_or, bit_xor, ◌≡◌,
  refl, sym, ap, ◌∙◌, ◌≢◌, ◌⊎◌, ◌↔◌, inl, inr, Bool, true, false, ◌&&◌, ◌||◌, not, Option, none,
  some, List, [], ◌∷◌, ◌++◌, map, arith, ltb, leb, ◌==◌, if◌then◌else◌, ltb→lt, lt→ltb, leb→le,
  le→leb, ==_iff, Bool-cases, Option-cases, get_or_else, is_some, or_else, keep_if, map_option,
  Loop, done, stuck, run_or, run_or-done, length, get_elem?, get_or, take, drop, replicate, All,
  All-append, All-take, All-drop, All-replicate, take-append, drop-append, length-append,
  length-take, length-drop, length-replicate, length-map, filter, All-filter, All-each, All-map,
  All-imp,
}
use netd.Base.Rounds.{◌>>=◌}
use netd.Base.Bytes.{u16_mod, u32_mod, as_u16, be16, be32, from_be16, byte_at}

abbrev pub client_port : ℕ
client_port = 68

-- The `for` loop over chunks of two.
unfoldable pub sum_words : ℕ → List ℕ → ℕ
sum_words sum [] = sum
sum_words sum (a ∷ []) = (sum + from_be16 a 0) % u32_mod
sum_words sum (a ∷ b ∷ bs) = sum_words ((sum + from_be16 a b) % u32_mod) bs

-- The `while` loop; three rounds are enough.
unfoldable pub fold_carries : ℕ → ℕ → Loop ℕ
fold_carries zero sum = stuck
fold_carries (suc rounds) sum =
    let more = fold_carries rounds (sum % 2 ^ 16 + sum / 2 ^ 16) in
    if sum / 2 ^ 16 == 0 then done sum else more

-- `!sum`, on 16 bits.
abbrev pub complement : ℕ → ℕ
complement sum = u16_mod - 1 - as_u16 sum

unfoldable pub checksum : List ℕ → ℕ
checksum bytes = complement (run_or 0 (fold_carries 3 (sum_words 0 bytes)))

-- The first twenty bytes, around the two of the checksum.
abbrev pub ip_header : ℕ → ℕ → ℕ → ℕ → ℕ → List ℕ
ip_header total src dst hi lo =
    0x45
    ∷ 0x10
    ∷ (be16 (as_u16 total) ++ (0 ∷ 0 ∷ 0x40 ∷ 0 ∷ 64 ∷ 17 ∷ hi ∷ lo ∷ (be32 src ++ be32 dst)))

abbrev pub udp_header : ℕ → ℕ → ℕ → List ℕ
udp_header sport dport len = be16 sport ++ (be16 dport ++ (be16 (as_u16 len) ++ (0 ∷ 0 ∷ [])))

unfoldable pub ip_udp : ℕ → ℕ → ℕ → ℕ → List ℕ → List ℕ
ip_udp src dst sport dport payload =
    let udp_len = 8 + length payload in
    let sum = checksum (ip_header (20 + udp_len) src dst 0 0) in
    ip_header (20 + udp_len) src dst (sum / 256) (sum % 256)
    ++ (udp_header sport dport udp_len ++ payload)

-- `packet.get(from..end)`
abbrev pub slice : ℕ → ℕ → List ℕ → Option (List ℕ)
slice from end bytes =
    if leb from end && leb end (length bytes)
    then some (take (end - from) (drop from bytes))
    else none

abbrev pub word_at : List ℕ → ℕ → ℕ
word_at bytes i = from_be16 (byte_at bytes i) (byte_at bytes (i + 1))

unfoldable pub udp_payload : List ℕ → Option (List ℕ)
udp_payload packet =
    let ihl = byte_at packet 0 % 16 * 4 in
    if ltb (length packet) 20 || not (byte_at packet 0 / 16 == 4)
    then none
    else if not (byte_at packet 9 == 17) || ltb (length packet) (ihl + 8)
    then none
    else if not (word_at packet (ihl + 2) == client_port)
    then none
    else slice (ihl + 8) (min (ihl + word_at packet (ihl + 4)) (length packet)) packet
