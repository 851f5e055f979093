-- ===== src/Dhcp4/Client.antt =====
-- dhcp4/src/client.rs: the types of the RFC 2131 client, its random numbers and the parts that all
-- its messages share. A method that mutates `self` returns the new client, with its actions where it
-- returns some. `Instant::now()` in `new` is an argument.
pub mod Send
pub mod Handlers
pub mod Valid
pub mod Calls
pub mod Views
pub mod Traffic
pub mod Reports
pub mod Expiry
use netd.Base.{
  ℕ, zero, suc, ◌+◌, ◌-◌, ◌*◌, ◌/◌, ◌%◌, ◌^◌, ◌≤◌, ◌<◌, min, max, bit_and, bit_or, bit_xor, ◌≡◌,
  refl, sym, ap, ◌∙◌, ◌≢◌, ◌⊎◌, ◌↔◌, inl, inr, Bool, true, false, ◌&&◌, ◌||◌, not, Option, none,
  some, List, [], ◌∷◌, ◌++◌, map, arith, ltb, leb, ◌==◌, if◌then◌else◌, ltb→lt, lt→ltb, leb→le,
  le→leb, ==_iff, Bool-cases, Option-cases, get_or_else, is_some, or_else, keep_if, map_option,
  ◌>>=◌, ◌>>◌, guard, Loop, done, stuck, run_or, run_or-done, length, get_elem?, get_or, take, drop,
  replicate, All, All-append, All-take, All-drop, All-replicate, take-append, drop-append,
  length-append, length-take, length-drop, length-replicate,
}
use netd.Base.Bytes.{be16, be32, bytes_eq, u32_mod, u64_mod}
use netd.Base.Time.{Instant, Duration, from_secs, from_millis, as_secs}
use netd.Dhcp4.Code
use netd.Dhcp4.Options.{Options, Ipv4Addr, unspecified, ipv4, push, MessageType, as_u8}
use netd.Dhcp4.Options as O
use netd.Dhcp4.Packet.{Message}
use netd.Dhcp4.Packet
use netd.Dhcp4.Lease.{Lease, from_ack}

pub data Destination : Type 0 where
  broadcast : Destination
  unicast : Ipv4Addr → Ipv4Addr → Destination

pub data Action : Type 0 where
  send : Message → Destination → Action
  bound : Lease → Action
  no_offer : Action
  lost : Action

pub record Config : Type 0 where
  pub chaddr : List ℕ
  pub client_id : List ℕ
  pub hostname : Option (List ℕ)
  pub seed : ℕ

pub data State : Type 0 where
  init selecting requesting rebooting bound renewing rebinding : State

abbrev pub discovers_before_no_offer : ℕ
discovers_before_no_offer = 3

abbrev pub max_requests : ℕ
max_requests = 4

abbrev pub max_backoff : Duration
max_backoff = from_secs 64

abbrev pub first_backoff : Duration
first_backoff = from_secs 4

abbrev pub min_retransmit : Duration
min_retransmit = from_secs 60

pub record Client : Type 0 where
  pub config : Config
  pub state : State
  pub rng : ℕ  -- u64
  pub xid : ℕ  -- u32
  pub started : Instant
  pub retransmit_at : Option Instant
  pub backoff : Duration
  pub attempts : ℕ  -- u32
  pub no_offer_reported : Bool
  pub offer : Option Message
  pub lease : Option Lease
  pub bound_at : Option Instant
  pub reboot_address : Option Ipv4Addr

unfoldable pub new : Config → Instant → Client
new config now = record {
  config = config;
  state = State.init;
  rng = bit_or config.seed 1;
  xid = 0;
  started = now;
  retransmit_at = none;
  backoff = first_backoff;
  attempts = 0;
  no_offer_reported = false;
  offer = none;
  lease = none;
  bound_at = none;
  reboot_address = none;
}

-- When a boundary of the lease is reached.
abbrev pub at : Instant → ℕ → Instant
at bound_at s = bound_at + from_secs s

unfoldable pub expires_in : Client → Instant → Option ℕ
expires_in c now = do
  lease ← c.lease
  bound_at ← c.bound_at
  some (as_secs (at bound_at lease.lease_time - now))

-- xorshift64*.
unfoldable pub random_state : ℕ → ℕ
random_state x =
    let a = bit_xor x (x / 2 ^ 12) in
    let b = bit_xor a (a * 2 ^ 25 % u64_mod) in bit_xor b (b / 2 ^ 27)

unfoldable pub random_value : ℕ → ℕ
random_value x = x * 0x2545F4914F6CDD1D % u64_mod / 2 ^ 32 % u32_mod

unfoldable pub next_random : Client → ℕ × Client
next_random c = let x = random_state c.rng in (random_value x, record c { rng = x })

unfoldable pub base_message : Client → Instant → Message
base_message c now = record (Packet.request c.xid c.config.chaddr) {
  secs = min (as_secs (now - c.started)) 65535;
}

abbrev pub parameter_request_list : List ℕ
parameter_request_list =
    Code.subnet_mask ∷ Code.router ∷ Code.dns ∷ Code.hostname ∷ Code.domain_name ∷ Code.mtu
    ∷ Code.broadcast ∷ Code.ntp ∷ Code.lease_time ∷ Code.renewal_t1 ∷ Code.rebinding_t2
    ∷ Code.domain_search ∷ Code.classless_static_route ∷ []

abbrev pub hostname_option : Option (List ℕ) → Options
hostname_option none = []
hostname_option (some h) = (Code.hostname, h) ∷ []

abbrev pub with_option : Message → ℕ → List ℕ → Message
with_option m code v = record m { options = push m.options code v }

unfoldable pub common_options : Client → Message → MessageType → Message
common_options c m kind =
    let m1 = with_option m Code.message_type (as_u8 kind ∷ []) in
    let m2 = with_option m1 Code.client_id c.config.client_id in
    let m3 = with_option m2 Code.max_message_size (be16 1500) in
    let m4 = with_option m3 Code.parameter_request_list parameter_request_list in
    record m4 { options = m4.options ++ hostname_option c.config.hostname }

unfoldable pub schedule_backoff : Instant → Client → Client
schedule_backoff now c =
    let (r, c') = next_random c in
    let jitter = from_millis (r % 2000) in
    record c' {
      retransmit_at = some (now + c'.backoff + jitter - from_secs 1);
      backoff = min (c'.backoff * 2) max_backoff;
    }
