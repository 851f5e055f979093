-- ===== src/Daemon/Examples.antt =====
-- Runs of the models of netd/src/reconcile.rs, netd/src/restart.rs, netd/src/dhcp.rs and
-- netd/src/config.rs at concrete inputs.
use netd.Base.{
  filter, ℕ, ◌+◌, ◌≡◌, refl, ◌↔◌, true, false, none, some, List, [], ◌∷◌, All, arith, take,
}
use netd.Daemon.Model.{IpAddr, LinkKind, Link, Route, Observed, rtprot_netd, new, link_of}
use netd.Daemon.Config.{parse_hex, format_hex}
use netd.Daemon.Config.Hex.{parse_hex-format_hex}
use netd.Daemon.Framing.{client_port, checksum, ip_udp, udp_payload}
use netd.Daemon.Framing.Checked.{checksum-ip_udp}
use netd.Daemon.Framing.Delivered.{udp_payload-ip_udp}
use netd.Daemon.Reconcile.{
  Desired, Op, add_route, del_route, add_address, ok, error, Rtnl, apply, plan,
}
use netd.Daemon.Reconcile.Owned.{Owned, plan-Owned}
use netd.Daemon.Reconcile.Settled.{IsSettled, plan-IsSettled}
use netd.Daemon.Reconcile.Applied.{Runs, apply-Runs}
use netd.Daemon.Restart.{Ipv4, capture, preserve}
use netd.Daemon.Restart.Spared.{Spares, preserve-Spares}

-- 10.0.2.15 and 10.0.2.2.
abbrev host : ℕ
host = 0x0a00020f

abbrev gateway : ℕ
gateway = 0x0a000202

abbrev link : Link
link = record {
  index = 2;
  name = b'e' ∷ [];
  mac = none;
  up = true;
  carrier = true;
  loopback = false;
  mtu = 1500;
  link_type = 1;
  kind = LinkKind.ether;
}

abbrev route : Route
route = record {
  index = 2;
  destination = IpAddr.v4 0;
  prefix = 0;
  gateway = some (IpAddr.v4 gateway);
  metric = 100;
  protocol = rtprot_netd;
}

-- Another program's route.
abbrev foreign : Route
foreign = record route { protocol = 4 }

abbrev seen : Observed
seen = record {
  links = (2, link) ∷ [];
  addresses = new 2 (IpAddr.v4 host) 24 ∷ new 2 (IpAddr.v4 9) 8 ∷ [];
  routes = route ∷ foreign ∷ [];
}

abbrev desired : Desired
desired = record {
  index = 2;
  up = true;
  mtu = none;
  addresses = (host, 24) ∷ [];
  addresses6 = [];
  broadcast = none;
  default_route = some (gateway, 100);
  default_route6 = none;
  routes = [];
}

plan-Owned_example : All (Owned desired) (plan seen desired)
plan-Owned_example = plan-Owned seen desired

found : link_of 2 seen.links ≡ some link
unfolding link_of
found = refl

plan-IsSettled_example : (plan seen desired ≡ []) ↔ IsSettled seen desired link
plan-IsSettled_example = plan-IsSettled seen desired link found

-- A kernel that counts the calls and says that the route is there, EEXIST.
abbrev counting : Rtnl ℕ
counting = record {
  set_link_up = λ i up s. (s + 1, ok);
  set_mtu = λ i m s. (s + 1, error none);
  add_address_to = λ a b s. (s + 1, ok);
  del_address_of = λ a s. (s + 1, ok);
  add_route_to = λ r s. (s + 1, error (some 17));
  del_route_of = λ r s. (s + 1, error (some 1));
}

-- A route that is there, one that cannot be deleted, and an address.
abbrev steps : List Op
steps = add_route route ∷ del_route route ∷ add_address (new 2 (IpAddr.v4 host) 24) none ∷ []

apply-Runs_example : Runs counting steps 0 (apply counting steps 0).0 (apply counting steps 0).1
apply-Runs_example = apply-Runs counting steps 0

one_failure : apply counting steps 0 ≡ (3, 1)
unfolding apply
one_failure = refl

abbrev captured : Ipv4
captured = record { addresses = (host, 24) ∷ []; routes = route ∷ [] }

captures : capture seen 2 (some host) ≡ some captured
unfolding capture filter
captures = refl

-- Nothing is desired yet but that the link be up.
abbrev waiting : Desired
waiting = record desired { addresses = []; default_route = none }

preserve-Spares_example : All (Spares host) (plan seen (preserve captured true 50 waiting))
preserve-Spares_example = preserve-Spares seen waiting host captured true 50 captures

checksum-ip_udp_example : checksum (take 20 (ip_udp 0 0xffffffff 68 67 (1 ∷ 2 ∷ 3 ∷ []))) ≡ 0
checksum-ip_udp_example = checksum-ip_udp 0 0xffffffff 68 67 (1 ∷ 2 ∷ 3 ∷ [])

udp_payload-ip_udp_example :
    udp_payload (ip_udp gateway host 67 client_port (1 ∷ 2 ∷ 3 ∷ [])) ≡ some (1 ∷ 2 ∷ 3 ∷ [])
udp_payload-ip_udp_example = udp_payload-ip_udp gateway host 67 (1 ∷ 2 ∷ 3 ∷ []) (omega arith)

parse_hex-format_hex_example :
    parse_hex (format_hex (0 ∷ 0xaf ∷ 255 ∷ [])) ≡ some (0 ∷ 0xaf ∷ 255 ∷ [])
parse_hex-format_hex_example =
    parse_hex-format_hex 0 (0xaf ∷ 255 ∷ []) (omega arith, (omega arith, (omega arith, tt)))
