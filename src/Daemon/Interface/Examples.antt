-- ===== src/Daemon/Interface/Examples.antt =====
-- Runs of the model of netd/src/main.rs at concrete inputs.
use netd.Base.{ℕ, ◌+◌, ◌≡◌, ◌↔◌, refl, true, false, none, some, [], ◌∷◌, All, filter}
use netd.Base.Members.{In}
use netd.Base.Net.{IpAddr}
use netd.Base.Bytes.{bytes_eq}
use netd.Core.Profile.{default_address, Profile, Outcome, Judgment}
use netd.Dhcp4.Lease.{Lease}
use netd.Daemon.Model.{LinkKind, Observed, new}
use netd.Daemon.Reconcile.{Rtnl, ok, same_ip, apply}
use netd.Daemon.Interface.{Interface, metric, joined, desired_for, desired}
use netd.Daemon.Interface.Reported.{
  Level, machine_level, seen, first_ones, dns, reconcile_all, link_local_for,
}
use netd.Daemon.Interface.Heeded.{IsOwnWay, desired-IsOwnWay}
use netd.Daemon.Interface.Told.{Distinct, counts, IsGreatest, machine_level-IsGreatest}
use netd.Daemon.Interface.Resolvers.{Joins, Server, Domain, dns-Distinct}
use netd.Daemon.Interface.Touched.{pass, IsSomewhere, reconcile_all-IsSomewhere}

abbrev resolver : ℕ
resolver = 0x0a000203

abbrev lease : Lease
lease = record {
  address = 0x0a00020f;
  prefix = 24;
  server = 0x0a000202;
  routers = 0x0a000202 ∷ [];
  dns = resolver ∷ resolver ∷ [];
  domain = some (b'l' ∷ b'a' ∷ b'n' ∷ []);
  search = [];
  hostname = none;
  mtu = none;
  broadcast = none;
  ntp = [];
  static_routes = record { destination = 0; prefix = 1; gateway = 0x0a000202 } ∷ [];
  lease_time = 3600;
  t1 = 1800;
  t2 = 3150;
}

-- The address is taken as offered, the routes are not.
abbrev office : Profile
office = record {
  path = b'o' ∷ [];
  enabled = true;
  address = record default_address { offered = true; gateway = some 0x0a000201 };
  dns = record {
    servers = IpAddr.v4 resolver ∷ [];
    domains = [];
    offered = true;
    default_route = none;
    exclusive = false;
  };
}

abbrev verdict : Outcome → Judgment
verdict outcome = record { outcome = outcome; rule = []; backstop = false; conflict = false }

abbrev ethernet : Interface
ethernet = record {
  link = record {
    index = 2;
    name = b'e' ∷ [];
    mac = none;
    up = true;
    carrier = true;
    loopback = false;
    mtu = 1500;
    link_type = 1;
    kind = LinkKind.ether;
  };
  judgment = verdict (Outcome.join office);
  discovery_unanswered = false;
  lease = some lease;
  restart = none;
  first_dhcp_start = false;
  link_local = none;
  ndp = none;
  dhcp6 = none;
}

abbrev ignored : Interface
ignored = record ethernet { judgment = verdict Outcome.ignore }

abbrev observed : Observed
observed = record {
  links = (2, ethernet.link) ∷ [];
  addresses = new 2 (IpAddr.v4 0x0a00020f) 24 ∷ [];
  routes = [];
}

desired_runs : desired 0 ethernet ≡ some (joined 0 ethernet office)
unfolding desired desired_for
desired_runs = refl

desired-IsOwnWay_example : IsOwnWay (metric ethernet) office (joined 0 ethernet office)
desired-IsOwnWay_example =
    desired-IsOwnWay 0 ethernet office (joined 0 ethernet office) refl refl desired_runs

dns-Distinct_example :
    Distinct same_ip (dns 0 ethernet).servers
    × Distinct bytes_eq (dns 0 ethernet).search
    × (In (IpAddr.v4 resolver) (dns 0 ethernet).servers
        ↔ ((p : Profile) × Joins ethernet p × Server 0 ethernet p (IpAddr.v4 resolver)))
    × (In [] (dns 0 ethernet).search ↔ ((p : Profile) × Joins ethernet p × Domain 0 ethernet p []))
dns-Distinct_example = dns-Distinct 0 ethernet (IpAddr.v4 resolver) []

one_server : (dns 0 ethernet).servers ≡ IpAddr.v4 resolver ∷ []
unfolding dns first_ones seen
one_server = refl

machine_level-IsGreatest_example :
    IsGreatest observed Level.absent
      (filter counts (ignored ∷ ethernet ∷ []))
      (machine_level observed (ignored ∷ ethernet ∷ []) Level.absent)
machine_level-IsGreatest_example = machine_level-IsGreatest observed (ignored ∷ ethernet ∷ [])

-- A kernel that only counts the calls.
abbrev counting : Rtnl ℕ
counting = record {
  set_link_up = λ i up n. (n + 1, ok);
  set_mtu = λ i m n. (n + 1, ok);
  add_address_to = λ a b n. (n + 1, ok);
  del_address_of = λ a n. (n + 1, ok);
  add_route_to = λ r n. (n + 1, ok);
  del_route_of = λ r n. (n + 1, ok);
}

reconcile_all-IsSomewhere_example :
    (reconcile_all counting 0 observed (ignored ∷ ethernet ∷ []) 0
      ≡ (apply counting (pass 0 observed (ignored ∷ ethernet ∷ [])) 0).0)
    × All (IsSomewhere (ignored ∷ ethernet ∷ [])) (pass 0 observed (ignored ∷ ethernet ∷ []))
reconcile_all-IsSomewhere_example =
    reconcile_all-IsSomewhere counting 0 observed (ignored ∷ ethernet ∷ []) 0

-- The last address that a MAC gives.
last_link_local : link_local_for (some (0 ∷ 0 ∷ 0 ∷ 0 ∷ 0xfc ∷ 0xff ∷ [])) 1 ≡ 0xa9fefdff
unfolding link_local_for
last_link_local = refl
