-- ===== src/Wire6.antt =====
-- What the crates `ndp` and `dhcp6` both contain, "shared by being written twice"
-- (ndp/src/packet.rs): IPv6 addresses, lists of DNS servers, and lists of DNS names. An `Ipv6Addr` is
-- its 128-bit number.
pub mod Names
use netd.Base.{
  length-map, ℕ, zero, suc, ◌+◌, ◌-◌, ◌*◌, ◌/◌, ◌%◌, ◌^◌, ◌≤◌, ◌<◌, min, max, bit_and, bit_or,
  bit_xor, ◌≡◌, refl, sym, ap, ◌∙◌, ◌≢◌, ◌⊎◌, ◌↔◌, inl, inr, Bool, true, false, ◌&&◌, ◌||◌, not,
  Option, none, some, List, [], ◌∷◌, ◌++◌, map, arith, ltb, leb, ◌==◌, if◌then◌else◌, ltb→lt,
  lt→ltb, leb→le, le→leb, ==_iff, Bool-cases, Option-cases, get_or_else, is_some, or_else, keep_if,
  map_option, ◌>>=◌, ◌>>◌, guard, Loop, done, stuck, run_or, run_or-done, length, get_elem?, get_or,
  take, drop, replicate, All, All-append, All-take, All-drop, All-replicate, take-append,
  drop-append, length-append, length-take, length-drop, length-replicate,
}

abbrev pub Ipv6Addr : Type 0
Ipv6Addr = ℕ

-- The number whose bytes, highest first, follow `acc`.
from_bytes : ℕ → List ℕ → ℕ
from_bytes acc [] = acc
from_bytes acc (b ∷ bs) = from_bytes (acc * 256 + b) bs

unfoldable pub ipv6_of : List ℕ → Ipv6Addr
unfolding from_bytes
ipv6_of v = from_bytes 0 v

abbrev pub is_unspecified : Ipv6Addr → Bool
is_unspecified a = a == 0

abbrev pub is_loopback : Ipv6Addr → Bool
is_loopback a = a == 1

-- ff00::/8
abbrev pub is_multicast : Ipv6Addr → Bool
is_multicast a = a / 2 ^ 120 == 0xff

-- The whole chunks of 16 bytes, `as_chunks::<16>().0`; the fuel is the number of bytes.
chunks16 : ℕ → List ℕ → List (List ℕ)
chunks16 zero v = []
chunks16 (suc fuel) v =
    let rest = chunks16 fuel (drop 16 v) in if leb 16 (length v) then take 16 v ∷ rest else []

abbrev pub is_server : Ipv6Addr → Bool
is_server a = not (is_unspecified a) && (not (is_multicast a) && not (is_loopback a))

keep_servers : List Ipv6Addr → List Ipv6Addr
keep_servers [] = []
keep_servers (a ∷ as') = if is_server a then a ∷ keep_servers as' else keep_servers as'

abbrev pub max_servers : ℕ
max_servers = 16

-- The first `max_servers` addresses of the list, without those that no server can have.
unfoldable pub servers : List ℕ → List Ipv6Addr
unfolding chunks16 keep_servers ipv6_of
servers v = keep_servers (map ipv6_of (take max_servers (chunks16 (length v) v)))

keep_servers-All : (as' : List Ipv6Addr) → All (λ a. is_server a ≡ true) (keep_servers as')
unfolding keep_servers
keep_servers-All [] = tt
keep_servers-All (a ∷ as') = elim (Bool-cases (is_server a)) [
  | inl h ↦ rw (h, keep_servers) (h, keep_servers-All as')
  | inr h ↦ rw (h, keep_servers) (keep_servers-All as')
]

length-keep_servers : (as' : List Ipv6Addr) → length (keep_servers as') ≤ length as'
unfolding keep_servers
length-keep_servers [] = omega arith
length-keep_servers (a ∷ as') = ground (arith, length-keep_servers as')

-- Of whatever bytes come in, at most 16 servers are taken, and none is unspecified, multicast or
-- loopback.
pub servers_bounds :
    (v : List ℕ) → (length (servers v) ≤ 16) × All (λ a. is_server a ≡ true) (servers v)
unfolding servers
servers_bounds v =
    let chunks = take max_servers (chunks16 (length v) v) in
    (
      omega (
        arith,
        length-keep_servers (map ipv6_of chunks),
        length-map chunks ipv6_of,
        length-take max_servers (chunks16 (length v) v),
      ),
      keep_servers-All (map ipv6_of chunks),
    )
