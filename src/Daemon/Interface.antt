-- ===== src/Daemon/Interface.antt =====
-- netd/src/main.rs: an interface of the daemon, and what it should be. The record leaves out the sockets,
-- the identities, the network and `rejudge`, which these methods do not read.
pub mod Reported
pub mod Heeded
pub mod Told
pub mod Resolvers
pub mod Touched
pub mod Examples
use netd.Base.{
  ◌>>=◌, ℕ, zero, suc, ◌+◌, ◌-◌, ◌*◌, ◌/◌, ◌%◌, ◌^◌, ◌≤◌, ◌<◌, min, max, bit_and, bit_or, bit_xor,
  ◌≡◌, refl, sym, ap, ◌∙◌, ◌≢◌, ◌⊎◌, ◌↔◌, inl, inr, Bool, true, false, ◌&&◌, ◌||◌, not, Option,
  none, some, List, [], ◌∷◌, ◌++◌, map, arith, ltb, leb, ◌==◌, if◌then◌else◌, ltb→lt, lt→ltb,
  leb→le, le→leb, ==_iff, Bool-cases, Option-cases, get_or_else, is_some, or_else, keep_if,
  map_option, Loop, done, stuck, run_or, run_or-done, length, get_elem?, get_or, take, drop,
  replicate, All, All-append, All-take, All-drop, All-replicate, take-append, drop-append,
  length-append, length-take, length-drop, length-replicate, length-map, filter, All-filter,
  All-each, All-map, All-imp,
}
use netd.Base.Net.{IpAddr}
use netd.Base.Bytes.{u32_mod, as_u8, bytes_eq, from_be32, byte_at}
use netd.Base.Time.{Instant}
use netd.Core.Profile.{StaticAddress, AddressConfig, Profile, Outcome, Judgment, profile_of}
use netd.Dhcp4.Client.{State}
use netd.Dhcp4.Lease.{StaticRoute, Lease, gateway}
use netd.Dhcp6.Client as Dhcp6
use netd.Ndp.Engine as Ndp
use netd.Ndp.Engine.{DesiredAddress}
use netd.Ndp.Engine.Observed.{view, default_router, dns_servers, search_domains}
use netd.Daemon.Model.{
  LinkKind, Link, Address, Observed, usable, is_default, addresses_of, routes_of,
}
use netd.Daemon.Reconcile.{DesiredV6, Desired, same_ip}
use netd.Daemon.Restart.{Ipv4, capture, preserve}

pub record Interface : Type 0 where
  pub link : Link
  pub judgment : Judgment
  pub discovery_unanswered : Bool
  pub lease : Option Lease
  pub restart : Option Ipv4
  pub first_dhcp_start : Bool
  pub link_local : Option ℕ
  pub ndp : Option Ndp.Engine
  pub dhcp6 : Option Dhcp6.Client

abbrev pub profile : Interface → Option Profile
profile i = if i.link.loopback then none else profile_of i.judgment.outcome

abbrev pub managed : Interface → Bool
managed i = is_some (profile_of i.judgment.outcome) && not i.link.loopback

abbrev pub kind_metric : LinkKind → ℕ
kind_metric LinkKind.wireless = 600
kind_metric LinkKind.loopback = 100
kind_metric LinkKind.ether = 100
kind_metric LinkKind.other = 100

abbrev pub route_metric : Profile → Option ℕ
route_metric p = p.address.route_metric

unfoldable pub metric : Interface → ℕ
metric i = get_or_else (profile i >>= route_metric) (kind_metric i.link.kind)

-- `Desired::default`, of the interface `index`.
abbrev pub nothing : ℕ → Desired
nothing index = record {
  index = index;
  up = false;
  mtu = none;
  addresses = [];
  addresses6 = [];
  broadcast = none;
  default_route = none;
  default_route6 = none;
  routes = [];
}

abbrev pub lease_mtu : Lease → Option ℕ
lease_mtu l = l.mtu

abbrev pub engine_mtu : Ndp.Engine → Option ℕ
engine_mtu e = e.mtu

abbrev pub offered_mtu : Interface → Option ℕ
offered_mtu i = or_else (i.lease >>= lease_mtu) (i.ndp >>= engine_mtu)

abbrev pub with_static : StaticAddress → IpAddr → Desired → Desired
with_static s (IpAddr.v4 a) d = record d { addresses = d.addresses ++ ((a, s.prefix) ∷ []) }
with_static s (IpAddr.v6 a) d = record d {
  addresses6 =
      d.addresses6
      ++ (record { address = a; prefix = s.prefix; deprecated = false; no_prefix_route = false }
          ∷ []);
}

unfoldable pub with_statics : List StaticAddress → Desired → Desired
with_statics [] d = d
with_statics (s ∷ ss) d = with_statics ss (with_static s s.address d)

unfoldable pub lease_routes : ℕ → List StaticRoute → List (ℕ × ℕ × ℕ × ℕ)
lease_routes metric [] = []
lease_routes metric (r ∷ rs) =
    let rest = lease_routes metric rs in
    if ltb 0 r.prefix then (r.destination, r.prefix, r.gateway, metric) ∷ rest else rest

unfoldable pub with_lease : Option Lease → Bool → ℕ → Desired → Desired
with_lease none offered metric d = d
with_lease (some l) offered metric d = record d {
  addresses = d.addresses ++ ((l.address, l.prefix) ∷ []);
  broadcast = l.broadcast;
  routes = d.routes ++ (if offered then lease_routes metric l.static_routes else []);
}

abbrev pub is_empty : {A : Type 0} → List A → Bool
is_empty [] = true
is_empty (x ∷ xs) = false

unfoldable pub with_link_local : Option ℕ → Bool → Desired → Desired
with_link_local none alone d = d
with_link_local (some a) alone d =
    if alone then record d { addresses = d.addresses ++ ((a, 16) ∷ []) } else d

-- The static gateway, else the one that is offered, where the profile takes it.
abbrev pub chosen : Option ℕ → Bool → Option ℕ → Option ℕ
chosen static offered found = or_else static (if offered then found else none)

abbrev pub paired : ℕ → Option ℕ → Option (ℕ × ℕ)
paired metric none = none
paired metric (some g) = some (g, metric)

unfoldable pub with_restart : Option Ipv4 → Bool → ℕ → Desired → Desired
with_restart none offered metric d = d
with_restart (some k) offered metric d = preserve k offered metric d

abbrev pub engine_address : DesiredAddress → DesiredV6
engine_address a = record {
  address = a.address;
  prefix = a.prefix;
  deprecated = a.deprecated;
  no_prefix_route = not a.on_link;
}

abbrev pub engine_addresses : Instant → Option Ndp.Engine → List DesiredV6
engine_addresses now none = []
engine_addresses now (some e) = map engine_address (view now e).addresses

abbrev pub engine_router : Instant → Option Ndp.Engine → Option ℕ
engine_router now none = none
engine_router now (some e) = default_router now e.routers

abbrev pub lease_gateway : Option Lease → Option ℕ
lease_gateway none = none
lease_gateway (some l) = gateway l

-- The part of `desired` on the interface's way out over IPv4, as far as a restart.
unfoldable pub joined4 : Interface → Profile → Desired → Desired
joined4 i p d0 =
    let offered = p.address.route_offered in
    let d1 = with_lease i.lease offered (metric i) (with_statics p.address.statics d0) in
    let d2 =
      with_link_local i.link_local (not (is_some i.lease) && is_empty p.address.statics) d1 in
    let d3 = record d2 {
      default_route = paired (metric i) (chosen p.address.gateway offered (lease_gateway i.lease));
    } in
    with_restart i.restart offered (metric i) d3

unfoldable pub joined : Instant → Interface → Profile → Desired
joined now i p =
    let base = record (nothing i.link.index) {
      up = true;
      mtu = or_else p.address.mtu (if p.address.mtu_offered then offered_mtu i else none);
    } in
    let d = joined4 i p base in
    record d {
      addresses6 = d.addresses6 ++ engine_addresses now i.ndp;
      default_route6 =
          paired (metric i)
            (chosen p.address.gateway6 p.address.route_offered (engine_router now i.ndp));
    }

-- What the layer's verdict asks for, of an interface that is not loopback.
unfoldable pub desired_for : Instant → Interface → Outcome → Option Desired
desired_for now i Outcome.ignore = none
desired_for now i Outcome.down = some (nothing i.link.index)
desired_for now i (Outcome.join p) = some (joined now i p)

unfoldable pub desired : Instant → Interface → Option Desired
desired now i = if i.link.loopback then none else desired_for now i i.judgment.outcome
