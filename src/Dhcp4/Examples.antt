-- ===== src/Dhcp4/Examples.antt =====
-- Concrete runs of the crate `dhcp4`, and its theorems at concrete inputs.
use netd.Base.{
  ℕ, ◌+◌, ◌-◌, ◌≤◌, ◌<◌, ◌≡◌, refl, ◌⊎◌, true, false, none, some, List, [], ◌∷◌, arith, done,
}
use netd.Base.Bytes.{be32}
use netd.Base.Time.{Instant, from_secs}
use netd.Base.Utf8.{from_utf8, from_utf8_lossy}
use netd.Dhcp4.Code
use netd.Dhcp4.Options.{
  Options, MessageType, as_u8, ipv4, u32, ipv4_list, ipv4_chunks, ipv4_at, string, get, u16,
}
use netd.Dhcp4.Packet.{Message, encode, decode}
use netd.Dhcp4.Packet.RoundTrip.{IsWire, decode-encode}
use netd.Dhcp4.Packet.Decoded.{decode-IsWire}
use netd.Dhcp4.Packet.Encoded.{HoldsBytes, encode-IsBytes}
use netd.Dhcp4.Lease.{
  Lease, StaticRoute, from_ack, decode_classless_routes, mask_prefix, classful_prefix, read_routes,
  first_timer, second_timer,
}
use netd.Dhcp4.Lease.Timers.{IsUsable, from_ack-IsUsable}
use netd.Dhcp4.Lease.Routes.{routes_bytes, decode_classless_routes-bytes}
use netd.Dhcp4.Lease.Mask.{IsOnes, ones, mask_prefix_lem}
use netd.Dhcp4.Search.{decode_domain_search, search_loop}
use netd.Dhcp4.Search.Ends.{decode_domain_search-returns}
use netd.Dhcp4.Client.{Client, Config, State, new, at}
use netd.Dhcp4.Client.Handlers.{start, tick, receive, next_deadline}
use netd.Dhcp4.Client.Valid.{IsValid}
use netd.Dhcp4.Client.Calls.{created, started, received, Reach-IsValid}
use netd.Dhcp4.Client.Views.{Call, configure, run, run-configure}
use netd.Dhcp4.Client.Reports.{no_offers, leases, left, run-no_offers}
use netd.Dhcp4.Client.Expiry.{Holds, tick-expiry, next_deadline-le-expiry}

abbrev mac : List ℕ
mac = 0x52 ∷ 0x54 ∷ 0 ∷ 0x12 ∷ 0x34 ∷ 0x56 ∷ []

-- 10.0.2.15 and 10.0.2.2.
abbrev host : ℕ
host = 0x0a00020f

abbrev server : ℕ
server = 0x0a000202

abbrev reply_options : MessageType → Options
reply_options kind =
    (Code.message_type, as_u8 kind ∷ [])
    ∷ (Code.server_id, be32 server)
    ∷ (Code.lease_time, be32 3600)
    ∷ (Code.subnet_mask, be32 0xffffff00)
    ∷ (Code.router, be32 server)
    ∷ (Code.domain_name, b'l' ∷ b'a' ∷ b'n' ∷ [])
    ∷ []

abbrev reply : ℕ → MessageType → Message
reply xid kind = record {
  is_reply = true;
  xid = xid;
  secs = 0;
  broadcast = false;
  ciaddr = 0;
  yiaddr = host;
  siaddr = 0;
  giaddr = 0;
  chaddr = mac;
  options = reply_options kind;
}

abbrev sample_ack : Message
sample_ack = reply 0x1234 MessageType.ack

abbrev sample_lease : Lease
sample_lease = record {
  address = host;
  prefix = 24;
  server = server;
  routers = server ∷ [];
  dns = [];
  domain = some (b'l' ∷ b'a' ∷ b'n' ∷ []);
  search = [];
  hostname = none;
  mtu = none;
  broadcast = none;
  ntp = [];
  static_routes = [];
  lease_time = 3600;
  t1 = 1800;
  t2 = 3150;
}

sample_ack-IsWire : IsWire sample_ack
sample_ack-IsWire = ground arith

decode-encode_example : decode (encode sample_ack) ≡ some sample_ack
decode-encode_example = decode-encode sample_ack sample_ack-IsWire

sample_ack-HoldsBytes : HoldsBytes sample_ack
sample_ack-HoldsBytes = record { hardware = omega arith; options = omega arith }

decode-IsWire_example : IsWire sample_ack
decode-IsWire_example =
    decode-IsWire (encode sample_ack) sample_ack (encode-IsBytes sample_ack sample_ack-HoldsBytes).0
      decode-encode_example

sample_lease_read : from_ack sample_ack ≡ some sample_lease
unfolding from_ack ipv4 ipv4_at u32 u16 get mask_prefix classful_prefix read_routes first_timer
    second_timer ipv4_list ipv4_chunks string from_utf8 decode_classless_routes
sample_lease_read = refl

from_ack-IsUsable_example : IsUsable sample_lease
from_ack-IsUsable_example = from_ack-IsUsable sample_ack sample_lease sample_lease_read

abbrev sample_routes : List StaticRoute
sample_routes =
    record { destination = 0x0a010000; prefix = 16; gateway = 0x0a000209 }
    ∷ record { destination = 0; prefix = 0; gateway = 0x0a000207 }
    ∷ []

decode_classless_routes-bytes_example :
    decode_classless_routes (routes_bytes sample_routes) ≡ some sample_routes
decode_classless_routes-bytes_example = decode_classless_routes-bytes sample_routes (ground arith)

-- A mask of 24 ones.
mask_options : ipv4 Code.subnet_mask (reply_options MessageType.ack) ≡ some 0xffffff00
unfolding ipv4 ipv4_at get
mask_options = refl

mask_prefix_lem_example :
    ((k : ℕ) × (k < 32)
      × (◌≡◌ {A = ℕ} 0xffffff00 (ones k))
      × (mask_prefix (reply_options MessageType.ack) host ≡ 32 - k))
    ⊎ ((¬ (IsOnes 0xffffff00))
        × (mask_prefix (reply_options MessageType.ack) host ≡ classful_prefix host))
mask_prefix_lem_example =
    mask_prefix_lem (reply_options MessageType.ack) host 0xffffff00 (omega arith) mask_options

-- A pointer that points at itself: the seventeenth jump ends it.
decode_domain_search-returns_example :
    search_loop 3 (0xc0 ∷ 0 ∷ []) 0 [] ≡ done (decode_domain_search (0xc0 ∷ 0 ∷ []))
decode_domain_search-returns_example = decode_domain_search-returns (0xc0 ∷ 0 ∷ [])

-- `lan`, then `dev` with a pointer back to it.
abbrev two_names : List ℕ
two_names = 3 ∷ b'l' ∷ b'a' ∷ b'n' ∷ 0 ∷ 3 ∷ b'd' ∷ b'e' ∷ b'v' ∷ 0xc0 ∷ 0 ∷ []

two_names_read :
    decode_domain_search two_names
    ≡ (b'l' ∷ b'a' ∷ b'n' ∷ []) ∷ (b'd' ∷ b'e' ∷ b'v' ∷ b'.' ∷ b'l' ∷ b'a' ∷ b'n' ∷ []) ∷ []
unfolding decode_domain_search from_utf8_lossy
two_names_read = refl

abbrev config : Config
config = record {
  chaddr = mac;
  client_id = 0xff ∷ 0 ∷ 1 ∷ [];
  hostname = some (b'b' ∷ b'o' ∷ b'x' ∷ []);
  seed = 42;
}

abbrev fresh : Client
fresh = (start 0 none (new config 0)).0

abbrev offered : Message
offered = reply fresh.xid MessageType.offer

abbrev acked : Message
acked = reply fresh.xid MessageType.ack

-- An offer, its acknowledgement, and a tick at T1.
abbrev script : List Call
script = Call.received 1 offered ∷ Call.received 2 acked ∷ Call.ticked (from_secs 1900) ∷ []

run-configure_example : configure fresh.lease (run script fresh).1 ≡ (run script fresh).0.lease
run-configure_example = run-configure script fresh

run-no_offers_example :
    no_offers (run script fresh).1 + left (run script fresh).0
    ≤ left fresh + leases (run script fresh).1
run-no_offers_example = run-no_offers script fresh

Reach-IsValid_example : IsValid (receive 2 acked (receive 1 offered fresh).0).0
Reach-IsValid_example =
    Reach-IsValid (received 2 acked (received 1 offered (started 0 none (created config 0))))

abbrev bound_client : Client
bound_client = record {
  config = config;
  state = State.bound;
  rng = 43;
  xid = 0x1234;
  started = 0;
  retransmit_at = none;
  backoff = from_secs 8;
  attempts = 0;
  no_offer_reported = false;
  offer = none;
  lease = some sample_lease;
  bound_at = some 0;
  reboot_address = some host;
}

bound_client-IsValid : IsValid bound_client
bound_client-IsValid = ground arith

bound_client-Holds : Holds bound_client sample_lease 0
bound_client-Holds = record { lease = refl; date = refl }

tick-expiry_example :
    (tick (from_secs 3605) (tick (from_secs 3602) (tick (from_secs 3600) bound_client).0).0).0.lease
    ≡ none
tick-expiry_example =
    tick-expiry (from_secs 3600) (from_secs 3602) (from_secs 3605) bound_client sample_lease 0
      bound_client-IsValid bound_client-Holds (omega arith) (omega arith) (omega arith)

next_deadline-le-expiry_example :
    (d : Instant) × (next_deadline bound_client ≡ some d) × (d ≤ at 0 3600)
next_deadline-le-expiry_example =
    next_deadline-le-expiry bound_client sample_lease 0 bound_client-IsValid bound_client-Holds
