-- ===== src/Dhcp6/Client.antt =====
-- dhcp6/src/lib.rs: the client. A method that mutates `self` returns the new client with its actions.
pub mod Running
pub mod Genuine
pub mod Replies
pub mod Requests
use netd.Base.{
  ℕ, zero, suc, ◌+◌, ◌-◌, ◌*◌, ◌/◌, ◌%◌, ◌^◌, ◌≤◌, ◌<◌, min, max, bit_and, bit_or, bit_xor, ◌≡◌,
  refl, sym, ap, ◌∙◌, ◌≢◌, ◌⊎◌, ◌↔◌, inl, inr, Bool, true, false, ◌&&◌, ◌||◌, not, Option, none,
  some, List, [], ◌∷◌, ◌++◌, map, arith, ltb, leb, ◌==◌, if◌then◌else◌, ltb→lt, lt→ltb, leb→le,
  le→leb, ==_iff, Bool-cases, Option-cases, get_or_else, is_some, or_else, keep_if, map_option,
  ◌>>=◌, ◌>>◌, guard, Loop, done, stuck, run_or, run_or-done, length, get_elem?, get_or, take, drop,
  replicate, All, All-append, All-take, All-drop, All-replicate, take-append, drop-append,
  length-append, length-take, length-drop, length-replicate, length-map,
}
use netd.Base.Bytes.{be16, bytes_eq, as_u8, u64_mod, u16_mod}
use netd.Base.Time.{Instant, Duration, from_secs, from_millis, as_millis}
use netd.Wire6.{Ipv6Addr, servers}
use netd.Wire6.Names as Names
use netd.Dhcp6.Options.{
  option_client_id, option_server_id, option_oro, option_elapsed_time, option_dns_servers,
  option_domain_list, option_information_refresh_time, push_option, options, refresh_time,
}

abbrev pub information_request : ℕ
information_request = 11

abbrev pub reply : ℕ
reply = 7

abbrev pub first_retransmit : Duration
first_retransmit = from_secs 1

abbrev pub max_retransmit : Duration
max_retransmit = from_secs 3600

abbrev pub refresh_default : Duration
refresh_default = from_secs 86400

abbrev pub refresh_minimum : Duration
refresh_minimum = from_secs 600

pub record Info : Type 0 where
  pub dns : List Ipv6Addr
  pub search : List (List ℕ)

pub data Action : Type 0 where
  send : List ℕ → Action
  changed : Action

pub record Config : Type 0 where
  pub duid : List ℕ
  pub seed : ℕ

pub record Client : Type 0 where
  pub config : Config
  pub rng : ℕ  -- u64
  pub txid : List ℕ  -- [u8; 3]
  pub started : Option Instant
  pub retransmit_at : Option Instant
  pub retransmit_interval : Duration
  pub refresh_at : Option Instant
  pub info : Option Info

unfoldable pub new : Config → Client
new config = record {
  config = config;
  rng = bit_or config.seed 1;
  txid = 0 ∷ 0 ∷ 0 ∷ [];
  started = none;
  retransmit_at = none;
  retransmit_interval = first_retransmit;
  refresh_at = none;
  info = none;
}

unfoldable pub random_state : ℕ → ℕ
random_state x =
    let a = bit_xor x (x * 2 ^ 13 % u64_mod) in
    let b = bit_xor a (a / 2 ^ 7) in bit_xor b (b * 2 ^ 17 % u64_mod)

unfoldable pub next_random : Client → ℕ × Client
next_random c = let x = random_state c.rng in (x, record c { rng = x })

-- ±10 %.
abbrev pub jittered : Duration → ℕ → Duration
jittered interval r =
    let millis = as_millis interval in from_millis (millis - millis / 10 + r % (millis / 5 + 1))

unfoldable pub jitter : Duration → Client → Duration × Client
jitter interval c = let (r, c') = next_random c in (jittered interval r, c')

unfoldable pub begin_exchange : Instant → Client → Client
begin_exchange now c =
    let (r, c1) = next_random c in
    record c1 {
      txid = as_u8 (r / 2 ^ 16) ∷ as_u8 (r / 2 ^ 8) ∷ as_u8 r ∷ [];
      started = some now;
      retransmit_interval = first_retransmit;
      retransmit_at = some now;
      refresh_at = none;
    }

abbrev earliest : Option Instant → Option Instant → Option Instant
earliest (some a) (some b) = some (min a b)
earliest none b = b
earliest (some a) none = some a

unfoldable pub next_deadline : Client → Option Instant
next_deadline c = earliest c.retransmit_at c.refresh_at

-- Hundredths of a second, saturating.
unfoldable pub elapsed : Option Instant → Instant → ℕ
elapsed none now = 0
elapsed (some started) now = min (as_millis (now - started) / 10) 65535

unfoldable pub request : Instant → Client → List ℕ
request now c =
    let out1 = push_option (information_request ∷ c.txid) option_client_id c.config.duid in
    let out2 = push_option out1 option_elapsed_time (be16 (elapsed c.started now)) in
    push_option out2 option_oro
      (be16 option_dns_servers ++ (be16 option_domain_list ++ be16 option_information_refresh_time))

abbrev pub is_due : Option Instant → Instant → Bool
is_due none now = false
is_due (some due) now = leb due now

unfoldable pub transmit : Instant → Client → Client × List Action
transmit now c =
    let message = request now c in
    let (wait, c1) = jitter c.retransmit_interval c in
    (
      record c1 {
        retransmit_interval = min (c.retransmit_interval * 2) max_retransmit;
        retransmit_at = some (now + wait);
      },
      send message ∷ [],
    )

unfoldable pub tick : Instant → Client → Client × List Action
tick now c =
    let c1 = if is_due c.refresh_at now then begin_exchange now c else c in
    if is_due c1.retransmit_at now then transmit now c1 else (c1, [])

unfoldable pub start : Instant → Client → Client × List Action
start now c = tick now (begin_exchange now c)

abbrev pub domain_list : List ℕ → List (List ℕ)
domain_list = Names.domain_list

-- What the `for` loop of `parse_reply` has seen.
pub record Seen : Type 0 where
  pub client_id_ours : Bool
  pub server_id : Bool
  pub info : Info

abbrev is_empty : List ℕ → Bool
is_empty [] = true
is_empty (b ∷ bs) = false

-- One round of the loop; `none` is its early return.
unfoldable pub see : List ℕ → ℕ × List ℕ → Seen → Option Seen
see duid (code, v) s =
    if code == option_client_id
    then (if bytes_eq v duid then some (record s { client_id_ours = true }) else none)
    else if code == option_server_id
    then some (record s { server_id = not (is_empty v) })
    else if code == option_dns_servers && length v % 16 == 0
    then some (record s { info = record { dns = servers v; search = s.info.search } })
    else if code == option_domain_list
    then some (record s { info = record { dns = s.info.dns; search = domain_list v } })
    else some s

unfoldable pub see_all : List ℕ → List (ℕ × List ℕ) → Seen → Option Seen
see_all duid [] s = some s
see_all duid (o ∷ os) s = do s' ← see duid o s; see_all duid os s'

abbrev pub nothing_seen : Seen
nothing_seen = record {
  client_id_ours = false;
  server_id = false;
  info = record { dns = []; search = [] };
}

abbrev accepted : Seen → Option Info
accepted s = if s.client_id_ours && s.server_id then some s.info else none

-- A REPLY for our transaction, the four bytes at the front.
unfoldable pub is_our_reply : Client → List ℕ → Bool
is_our_reply c [] = false
is_our_reply c (kind ∷ rest) =
    leb 3 (length rest) && (kind == reply && bytes_eq (take 3 rest) c.txid)

unfoldable pub parse_reply : Client → List ℕ → Option Info
parse_reply c datagram =
    if is_our_reply c datagram
    then (see_all c.config.duid (options (drop 4 datagram)) nothing_seen >>= accepted)
    else none

-- `==` on `Info`.
addresses_eq : List Ipv6Addr → List Ipv6Addr → Bool
unfolding bytes_eq
addresses_eq a b = bytes_eq a b

names_eq : List (List ℕ) → List (List ℕ) → Bool
names_eq [] [] = true
names_eq [] (n ∷ ns) = false
names_eq (m ∷ ms) [] = false
names_eq (m ∷ ms) (n ∷ ns) = bytes_eq m n && names_eq ms ns

unfoldable pub info_eq : Option Info → Info → Bool
unfolding addresses_eq names_eq
info_eq none b = false
info_eq (some a) b = addresses_eq a.dns b.dns && names_eq a.search b.search

unfoldable pub take_info : Instant → List ℕ → Info → Client → Client × List Action
take_info now datagram info c =
    let refresh = max (get_or_else (refresh_time datagram) refresh_default) refresh_minimum in
    let c1 = record c { retransmit_at = none; started = none; refresh_at = some (now + refresh) } in
    if info_eq c.info info then (c1, []) else (record c1 { info = some info }, changed ∷ [])

unfoldable pub receive : Instant → List ℕ → Client → Client × List Action
receive now datagram c =
    if not (is_some c.retransmit_at) then (c, []) else elim (parse_reply c datagram) [
      | none ↦ (c, [])
      | some info ↦ take_info now datagram info c
    ]
