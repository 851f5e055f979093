-- ===== src/Ndp/Engine.antt =====
-- ndp/src/engine.rs: the types of the SLAAC engine, its random numbers, and the addresses that it forms.
-- A method that mutates `self` returns the new engine; `sha1`, of the crate of that name, is a parameter.
pub mod Draw
pub mod Lifetimes
pub mod Observed
pub mod Handlers
pub mod Current
pub mod Deadline
pub mod Same
pub mod Reached
pub mod Views
pub mod Guarded
pub mod Ends
pub mod Examples
use netd.Base.{
  ℕ, zero, suc, ◌+◌, ◌-◌, ◌*◌, ◌/◌, ◌%◌, ◌^◌, ◌≤◌, ◌<◌, min, max, bit_and, bit_or, bit_xor, ◌≡◌,
  refl, sym, ap, ◌∙◌, ◌≢◌, ◌⊎◌, ◌↔◌, inl, inr, Bool, true, false, ◌&&◌, ◌||◌, not, Option, none,
  some, List, [], ◌∷◌, ◌++◌, map, arith, ltb, leb, ◌==◌, if◌then◌else◌, ltb→lt, lt→ltb, leb→le,
  le→leb, ==_iff, Bool-cases, Option-cases, get_or_else, is_some, or_else, keep_if, map_option,
  ◌>>=◌, ◌>>◌, guard, Loop, done, stuck, run_or, run_or-done, length, get_elem?, get_or, take, drop,
  replicate, All, All-append, All-take, All-drop, All-replicate, take-append, drop-append,
  length-append, length-take, length-drop, length-replicate, length-map, filter, All-filter,
  All-each, All-map, All-imp,
}
use netd.Base.Bytes.{as_u8, be32, byte_at, bytes_eq, u32_mod, u64_mod}
use netd.Base.Time.{Instant, Duration, from_secs, from_millis, as_millis}
use netd.Wire6.{Ipv6Addr, ipv6_of}

abbrev pub solicit_interval : Duration
solicit_interval = from_secs 4

abbrev pub solicits_before_backoff : ℕ
solicits_before_backoff = 3

abbrev pub max_solicit_interval : Duration
max_solicit_interval = from_secs 3600

abbrev pub two_hours : Duration
two_hours = from_secs 7200

abbrev pub temp_preferred : Duration
temp_preferred = from_secs 86400

abbrev pub temp_valid : Duration
temp_valid = from_secs 172800

abbrev pub max_temps : ℕ
max_temps = 4

pub record Config : Type 0 where
  pub interface : List ℕ
  pub secret : List ℕ
  pub temporary : Bool
  pub mac : Option (List ℕ)
  pub seed : ℕ

pub data Action : Type 0 where
  solicit : List ℕ → Action
  changed : Action

pub record DesiredAddress : Type 0 where
  pub address : Ipv6Addr
  pub prefix : ℕ
  pub deprecated : Bool
  pub on_link : Bool

pub record Temp : Type 0 where
  pub address : Ipv6Addr
  pub preferred_until : Instant
  pub valid_until : Instant

pub record Prefix : Type 0 where
  pub on_link : Bool
  pub valid_until : Option Instant
  pub preferred_until : Option Instant
  pub stable : Ipv6Addr
  pub temps : List Temp

pub record View : Type 0 where
  pub addresses : List DesiredAddress
  pub router : Option Ipv6Addr
  pub dns : List Ipv6Addr
  pub search : List (List ℕ)
  pub mtu : Option ℕ
  pub dhcp6 : Bool

pub record Engine : Type 0 where
  pub config : Config
  pub rng : ℕ  -- u64
  pub solicit_at : Option Instant
  pub solicit_interval : Duration
  pub solicits : ℕ
  pub routers : List (Ipv6Addr × Instant)
  pub prefixes : List ((Ipv6Addr × ℕ) × Prefix)
  pub rdnss : List (Ipv6Addr × Option Instant)
  pub dnssl : List (List ℕ × Option Instant)
  pub mtu : Option ℕ
  pub dhcp6_wanted : Bool
  pub last_view : View
  pub expired_at : Option Instant

-- The keys of the maps, as they are ordered.
abbrev pub address_key : Ipv6Addr → List ℕ
address_key a = a ∷ []

abbrev pub prefix_key : Ipv6Addr × ℕ → List ℕ
prefix_key (a, n) = a ∷ n ∷ []

abbrev pub name_key : List ℕ → List ℕ
name_key n = n

abbrev pub default_view : View
default_view = record {
  addresses = [];
  router = none;
  dns = [];
  search = [];
  mtu = none;
  dhcp6 = false;
}

unfoldable pub new : Config → Engine
new config = record {
  config = config;
  rng = bit_or config.seed 1;
  solicit_at = none;
  solicit_interval = solicit_interval;
  solicits = 0;
  routers = [];
  prefixes = [];
  rdnss = [];
  dnssl = [];
  mtu = none;
  dhcp6_wanted = false;
  last_view = default_view;
  expired_at = none;
}

unfoldable pub next_random : ℕ → ℕ
next_random x =
    let a = bit_xor x (x * 2 ^ 13 % u64_mod) in
    let b = bit_xor a (a / 2 ^ 7) in bit_xor b (b * 2 ^ 17 % u64_mod)

-- ±10 %.
abbrev pub jittered : Duration → ℕ → Duration
jittered interval r =
    let millis = as_millis interval in from_millis (millis - millis / 10 + r % (millis / 5 + 1))

abbrev pub until : Instant → ℕ → Option Instant
until now s = if s == u32_mod - 1 then none else some (now + from_secs s)

-- The address with the prefix's first eight bytes and the identifier behind them.
abbrev pub join : Ipv6Addr → List ℕ → Ipv6Addr
join prefix iid = prefix / 2 ^ 64 * 2 ^ 64 + ipv6_of iid

all_zero : List ℕ → Bool
all_zero [] = true
all_zero (b ∷ bs) = b == 0 && all_zero bs

unfoldable pub reserved_iid : List ℕ → Bool
unfolding all_zero
reserved_iid iid =
    all_zero iid
    || (bytes_eq (take 4 iid) (0x02 ∷ 0x00 ∷ 0x5e ∷ 0xff ∷ [])
        || (bytes_eq (take 7 iid) (0xfd ∷ replicate 6 0xff) && leb 0x80 (byte_at iid 7)))

-- `b"peios-ndp-stable-iid|"`
abbrev domain_separator : List ℕ
domain_separator =
    b'p' ∷ b'e' ∷ b'i' ∷ b'o' ∷ b's' ∷ b'-' ∷ b'n' ∷ b'd' ∷ b'p' ∷ b'-' ∷ b's' ∷ b't' ∷ b'a' ∷ b'b'
    ∷ b'l' ∷ b'e' ∷ b'-' ∷ b'i' ∷ b'i' ∷ b'd' ∷ b'|' ∷ []

-- The first eight of `prefix.octets()`.
abbrev network_octets : Ipv6Addr → List ℕ
network_octets prefix = be32 (prefix / 2 ^ 96) ++ be32 (prefix / 2 ^ 64)

module _ (sha1 : List ℕ → List ℕ) (config : Config) (prefix : Ipv6Addr) where
  -- The identifier of one counter.
  unfoldable pub stable_iid : ℕ → List ℕ
  stable_iid counter = take 8 (
      sha1 (
        domain_separator
        ++ (config.secret ++ (network_octets prefix ++ (config.interface ++ (counter ∷ []))))))

  -- The `for` loop over the `left` counters that end at eight.
  unfoldable pub stable_from : ℕ → ℕ → Ipv6Addr
  stable_from zero counter = join prefix (replicate 7 0 ++ (1 ∷ []))
  stable_from (suc left) counter =
      let next = stable_from left (counter + 1) in
      if not (reserved_iid (stable_iid counter)) then join prefix (stable_iid counter) else next

  unfoldable pub stable_address : Ipv6Addr
  stable_address = stable_from 8 0
