-- ===== src/Daemon/Interface/Reported.antt =====
-- netd/src/main.rs: what the daemon says of its interfaces, and its pass over all of them.
use netd.Base.{
  ◌>>=◌, ℕ, ◌+◌, ◌-◌, ◌*◌, ◌/◌, ◌%◌, Bool, true, false, ◌&&◌, ◌||◌, not, Option, none, some, List,
  [], ◌∷◌, ◌++◌, map, ltb, if◌then◌else◌, is_some,
}
use netd.Base.Net.{IpAddr}
use netd.Base.Bytes.{u32_mod, as_u8, bytes_eq, from_be32, byte_at}
use netd.Base.Time.{Instant}
use netd.Core.Profile.{Profile}
use netd.Dhcp4.Client.{State}
use netd.Dhcp4.Lease.{Lease}
use netd.Dhcp6.Client.{Info}
use netd.Dhcp6.Client as Dhcp6
use netd.Ndp.Engine.{Engine}
use netd.Ndp.Engine.Observed.{dns_servers, search_domains}
use netd.Daemon.Model.{Observed, usable, is_default, addresses_of, routes_of}
use netd.Daemon.Reconcile.{Op, Rtnl, same_ip, plan, apply}
use netd.Daemon.Restart.{capture}
use netd.Daemon.Interface.{Interface, profile, managed, desired, is_empty}

-- `Level`, of netd-core/src/lib.rs; the derived order is that of the constructors.
pub data Level : Type 0 where
  absent : Level
  link : Level
  addressed : Level
  routed : Level

abbrev pub rank : Level → ℕ
rank Level.absent = 0
rank Level.link = 1
rank Level.addressed = 2
rank Level.routed = 3

-- `any`
abbrev pub any : {A : Type 0} → (A → Bool) → List A → Bool
any p [] = false
any p (x ∷ xs) = p x || any p xs

unfoldable pub level : Observed → Interface → Level
level o i =
    if not (i.link.up && i.link.carrier)
    then Level.absent
    else if not (any usable (addresses_of i.link.index o))
    then Level.link
    else if any is_default (routes_of i.link.index o)
    then Level.routed
    else Level.addressed

abbrev pub max_level : Level → Level → Level
max_level l m = if ltb (rank m) (rank l) then l else m

-- The machine's level, as the loop of `status` leaves it.
unfoldable pub machine_level : Observed → List Interface → Level → Level
machine_level o [] l = l
machine_level o (i ∷ is') l =
    machine_level o is' (if not i.link.loopback && managed i then max_level l (level o i) else l)

pub record DnsFacts : Type 0 where
  pub servers : List IpAddr
  pub search : List (List ℕ)
  pub ntp : List ℕ

-- What a lease says of search domains.
abbrev pub named : Option (List ℕ) → List (List ℕ)
named none = []
named (some d) = d ∷ []

abbrev pub lease_search : Lease → List (List ℕ)
lease_search l = if not (is_empty l.search) then l.search else named l.domain

abbrev pub from_some : {A B : Type 0} → (A → List B) → Option A → List B
from_some f none = []
from_some f (some a) = f a

abbrev pub client_info : Dhcp6.Client → Option Info
client_info c = c.info

abbrev pub lease_servers : Lease → List IpAddr
lease_servers l = map IpAddr.v4 l.dns

abbrev pub engine_servers : Instant → Engine → List IpAddr
engine_servers now e = map IpAddr.v6 (dns_servers now e)

abbrev pub info_servers : Info → List IpAddr
info_servers info = map IpAddr.v6 info.dns

abbrev pub info_search : Info → List (List ℕ)
info_search info = info.search

abbrev pub lease_ntp : Lease → List ℕ
lease_ntp l = l.ntp

-- The servers and the domains that the network has offered.
abbrev pub offered_servers : Instant → Interface → List IpAddr
offered_servers now i =
    from_some lease_servers i.lease
    ++ (from_some (engine_servers now) i.ndp ++ from_some info_servers (i.dhcp6 >>= client_info))

abbrev pub offered_search : Instant → Interface → List (List ℕ)
offered_search now i =
    from_some lease_search i.lease
    ++ (from_some (search_domains now) i.ndp ++ from_some info_search (i.dhcp6 >>= client_info))

-- All servers and all domains in order, with repetitions.
abbrev pub all_servers : Instant → Interface → Option Profile → List IpAddr
all_servers now i none = []
all_servers now i (some p) = p.dns.servers ++ (if p.dns.offered then offered_servers now i else [])

abbrev pub all_search : Instant → Interface → Option Profile → List (List ℕ)
all_search now i none = []
all_search now i (some p) = p.dns.domains ++ (if p.dns.offered then offered_search now i else [])

module _ {A : Type 0} (eq : A → A → Bool) where
  unfoldable pub seen : A → List A → Bool
  seen x [] = false
  seen x (y ∷ ys) = eq x y || seen x ys

  -- `retain` on what the set of those before takes as new.
  unfoldable pub first_ones : List A → List A → List A
  first_ones before [] = []
  first_ones before (x ∷ xs) =
      let old = first_ones before xs in
      let new = first_ones (x ∷ before) xs in if seen x before then old else x ∷ new

unfoldable pub dns : Instant → Interface → DnsFacts
dns now i = record {
  servers = first_ones same_ip [] (all_servers now i (profile i));
  search = first_ones bytes_eq [] (all_search now i (profile i));
  ntp = from_some lease_ntp i.lease;
}

unfoldable pub remember_restart : Observed → Option ℕ → Interface → Interface
remember_restart o requested i = record i {
  restart = if i.first_dhcp_start then capture o i.link.index requested else none;
  first_dhcp_start = false;
}

abbrev pub is_rebooting : Option State → Bool
is_rebooting (some State.rebooting) = true
is_rebooting _ = false

-- With whether there was something to give up.
unfoldable pub finish_restart : Option State → Interface → Interface × Bool
finish_restart state i =
    if not (is_rebooting state)
    then (record i { restart = none }, is_some i.restart)
    else (i, false)

-- 169.254/16, by the MAC or the interface's number.
abbrev pub link_local_seed : Option (List ℕ) → ℕ → ℕ
link_local_seed none index = index * 2654435761 % u32_mod
link_local_seed (some m) index = from_be32 (byte_at m 2) (byte_at m 3) (byte_at m 4) (byte_at m 5)

unfoldable pub link_local_for : Option (List ℕ) → ℕ → ℕ
link_local_for mac index =
    let host = 256 + link_local_seed mac index % (65024 - 256) in
    from_be32 169 254 (as_u8 (host / 256)) (as_u8 host)

-- The steps for one interface.
unfoldable pub ops_for : Instant → Observed → Interface → List Op
ops_for now o i = elim (desired now i) [ none ↦ [] | some d ↦ plan o d ]

-- The loop of `reconcile_all`: the kernel behind it.
unfoldable pub reconcile_all : {S : Type 0} → Rtnl S → Instant → Observed → List Interface → S → S
reconcile_all rtnl now o [] s = s
reconcile_all rtnl now o (i ∷ is') s =
    reconcile_all rtnl now o is' (apply rtnl (ops_for now o i) s).0
