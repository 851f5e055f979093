-- ===== src/Dhcp4/Lease.antt =====
-- dhcp4/src/packet.rs: `Lease::from_ack`, the classless route list (option 121), the prefix of a
-- mask. The domain search list is in Dhcp4/Search.antt.
pub mod Timers
pub mod Routes
pub mod Mask
use netd.Base.{
  ℕ, zero, suc, ◌+◌, ◌-◌, ◌*◌, ◌/◌, ◌%◌, ◌^◌, ◌≤◌, ◌<◌, min, max, bit_or, Bool, true, false, ◌&&◌,
  not, Option, none, some, List, [], ◌∷◌, ◌++◌, ltb, leb, ◌==◌, if◌then◌else◌, ◌>>=◌, ◌>>◌, guard,
  get_or_else, or_else, keep_if, map_option, length, replicate, Loop, done, stuck, run_or,
}
use netd.Base.Bytes.{from_be32, byte_at, split, as_u8, as_u32, u32_mod}
use netd.Dhcp4.Code
use netd.Dhcp4.Options.{Options, Ipv4Addr, unspecified, ipv4, ipv4_list, u32, u16, string}
use netd.Dhcp4.Options as O
use netd.Dhcp4.Packet.{Message}
use netd.Dhcp4.Search.{decode_domain_search}

pub record StaticRoute : Type 0 where
  pub destination : Ipv4Addr
  pub prefix : ℕ  -- u8
  pub gateway : Ipv4Addr

pub record Lease : Type 0 where
  pub address : Ipv4Addr
  pub prefix : ℕ  -- u8
  pub server : Ipv4Addr
  pub routers : List Ipv4Addr
  pub dns : List Ipv4Addr
  pub domain : Option (List ℕ)
  pub search : List (List ℕ)
  pub hostname : Option (List ℕ)
  pub mtu : Option ℕ  -- u16
  pub broadcast : Option Ipv4Addr
  pub ntp : List Ipv4Addr
  pub static_routes : List StaticRoute
  pub lease_time : ℕ  -- u32 seconds
  pub t1 : ℕ
  pub t2 : ℕ

-- `Ipv4Addr::from` of the four octets at the front.
abbrev pub octets4 : List ℕ → Ipv4Addr
octets4 v = from_be32 (byte_at v 0) (byte_at v 1) (byte_at v 2) (byte_at v 3)

-- One route behind its prefix byte: the octets that the prefix needs, then the gateway.
read_route : ℕ → List ℕ → Option (StaticRoute × List ℕ)
read_route prefix rest = do
  guard (leb prefix 32)
  (d, rest') ← split ((prefix + 7) / 8) rest
  (gw, rest'') ← split 4 rest'
  some (
    record { destination = octets4 (d ++ replicate 4 0); prefix = prefix; gateway = octets4 gw },
    rest'',
  )

-- The `while` loop. The list is `v[i..]`.
pub routes_loop : ℕ → List ℕ → List StaticRoute → Loop (Option (List StaticRoute))
routes_loop fuel [] routes = done (some routes)
routes_loop zero (prefix ∷ rest) routes = stuck
routes_loop (suc fuel) (prefix ∷ rest) routes = elim (read_route prefix rest) [
  | none ↦ done none
  | some (r, rest') ↦ routes_loop fuel rest' (routes ++ (r ∷ []))
]

-- Each round takes a byte at least, so the length is fuel enough.
unfoldable pub decode_classless_routes : List ℕ → Option (List StaticRoute)
unfolding routes_loop read_route split
decode_classless_routes v = run_or none (routes_loop (length v) v [])

unfoldable pub classful_prefix : Ipv4Addr → ℕ
classful_prefix a =
    let first = a / 16777216 % 256 in if leb first 127 then 8 else if leb first 191 then 16 else 24

-- `count_ones` over the lowest `n` bits.
pub count_ones : ℕ → ℕ → ℕ
count_ones zero m = 0
count_ones (suc n) m = m % 2 + count_ones n (m / 2)

abbrev pub is_mask : ℕ → Bool
is_mask m = not (m == 0) && bit_or m (m - 1) == 4294967295

-- The prefix of a mask of contiguous ones, else the classful one.
unfoldable pub mask_prefix : Options → Ipv4Addr → ℕ
unfolding count_ones
mask_prefix o address =
    get_or_else
      (map_option (λ m. as_u8 (count_ones 32 m)) (keep_if is_mask (ipv4 Code.subnet_mask o)))
      (classful_prefix address)

unfoldable pub read_routes : Options → List StaticRoute
read_routes o = get_or_else (O.get Code.classless_static_route o >>= decode_classless_routes) []

abbrev pub is_empty : List StaticRoute → Bool
is_empty [] = true
is_empty (r ∷ rs) = false

unfoldable pub first_timer : Options → ℕ → ℕ
first_timer o lease_time =
    get_or_else (keep_if (λ t. ltb 0 t && ltb t (lease_time - 2)) (u32 Code.renewal_t1 o))
      (lease_time / 2)

unfoldable pub second_timer : Options → ℕ → ℕ → ℕ
second_timer o lease_time t1 =
    let t2_default = min (max (as_u32 (lease_time * 7 / 8)) (t1 + 1)) (lease_time - 1) in
    get_or_else (keep_if (λ t. ltb t1 t && ltb t lease_time) (u32 Code.rebinding_t2 o)) t2_default

unfoldable pub from_ack : Message → Option Lease
from_ack message = do
  let o = message.options
  let address = message.yiaddr
  guard (not (address == unspecified))
  server ← ipv4 Code.server_id o
  lease_time ← u32 Code.lease_time o
  guard (not (ltb lease_time 4))
  let static_routes = read_routes o
  let t1 = first_timer o lease_time
  some (record {
    address = address;
    prefix = mask_prefix o address;
    server = server;
    routers = if is_empty static_routes then ipv4_list Code.router o else [];
    dns = ipv4_list Code.dns o;
    domain = string Code.domain_name o;
    search = get_or_else (map_option decode_domain_search (O.get Code.domain_search o)) [];
    hostname = string Code.hostname o;
    mtu = keep_if (λ m. leb 68 m) (u16 Code.mtu o);
    broadcast = ipv4 Code.broadcast o;
    ntp = ipv4_list Code.ntp o;
    static_routes = static_routes;
    lease_time = lease_time;
    t1 = t1;
    t2 = second_timer o lease_time t1;
  })

abbrev first_router : List Ipv4Addr → Option Ipv4Addr
first_router [] = none
first_router (a ∷ as') = some a

default_gateway : List StaticRoute → Option Ipv4Addr
default_gateway [] = none
default_gateway (r ∷ rs) = if r.prefix == 0 then some r.gateway else default_gateway rs

unfoldable pub gateway : Lease → Option Ipv4Addr
unfolding default_gateway
gateway l = or_else (first_router l.routers) (default_gateway l.static_routes)
