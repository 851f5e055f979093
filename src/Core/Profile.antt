-- ===== src/Core/Profile.antt =====
-- netd-core/src/profile.rs and netd-core/src/policy.rs: a resolved profile, and what the interface layer
-- says of an interface.
pub mod Values
pub mod Tree
pub mod Items
pub mod Sound
pub mod Resolved
pub mod Inherited
mod Examples
use netd.Base.{ℕ, Bool, true, false, Option, none, some, List, []}
use netd.Base.Net.{IpAddr}

pub data OnExpiry : Type 0 where
  drop : OnExpiry
  keep : OnExpiry

pub record StaticAddress : Type 0 where
  pub address : IpAddr
  pub prefix : ℕ

pub record AddressConfig : Type 0 where
  pub offered : Bool
  pub ipv4 : Bool
  pub ipv6 : Bool
  pub statics : List StaticAddress
  pub link_local : Bool
  pub temporary : Bool
  pub on_expiry : OnExpiry
  pub route_offered : Bool
  pub gateway : Option ℕ
  pub gateway6 : Option ℕ
  pub route_metric : Option ℕ
  pub mtu_offered : Bool
  pub mtu : Option ℕ
  pub announce_hostname : Bool
  pub accept_hostname : Bool

abbrev pub default_address : AddressConfig
default_address = record {
  offered = false;
  ipv4 = true;
  ipv6 = true;
  statics = [];
  link_local = false;
  temporary = false;
  on_expiry = OnExpiry.drop;
  route_offered = false;
  gateway = none;
  gateway6 = none;
  route_metric = none;
  mtu_offered = false;
  mtu = none;
  announce_hostname = false;
  accept_hostname = false;
}

pub record DnsConfig : Type 0 where
  pub servers : List IpAddr
  pub domains : List (List ℕ)
  pub offered : Bool
  pub default_route : Option Bool
  pub exclusive : Bool

pub record Profile : Type 0 where
  pub path : List ℕ
  pub enabled : Bool
  pub address : AddressConfig
  pub dns : DnsConfig

pub data Outcome : Type 0 where
  join : Profile → Outcome
  ignore : Outcome
  down : Outcome

-- `Outcome::profile`
abbrev pub profile_of : Outcome → Option Profile
profile_of (Outcome.join p) = some p
profile_of Outcome.ignore = none
profile_of Outcome.down = none

pub record Judgment : Type 0 where
  pub outcome : Outcome
  pub rule : List ℕ
  pub backstop : Bool
  pub conflict : Bool
