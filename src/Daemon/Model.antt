-- ===== src/Daemon/Model.antt =====
-- netd/src/model.rs: what the kernel says the network is. The text of a name is its bytes; a MAC is its
-- six bytes.
use netd.Base.{
  filter, ℕ, ◌/◌, ◌^◌, Bool, true, false, ◌&&◌, not, Option, none, some, List, [], ◌∷◌, ◌++◌, ◌==◌,
  if◌then◌else◌,
}
pub use netd.Base.Net.{IpAddr}
use netd.Base.Net.{is_v4_address}
use netd.Ndp.Packet.{is_link_local}

-- `std::net::IpAddr`, the numbers of 32 and 128 bits.
abbrev pub rtprot_netd : ℕ
rtprot_netd = 200

pub data LinkKind : Type 0 where
  loopback : LinkKind
  ether : LinkKind
  wireless : LinkKind
  other : LinkKind

pub record Link : Type 0 where
  pub index : ℕ
  pub name : List ℕ
  pub mac : Option (List ℕ)
  pub up : Bool
  pub carrier : Bool
  pub loopback : Bool
  pub mtu : ℕ
  pub link_type : ℕ
  pub kind : LinkKind

pub record Address : Type 0 where
  pub index : ℕ
  pub address : IpAddr
  pub prefix : ℕ
  pub deprecated : Bool
  pub no_prefix_route : Bool
  pub tentative : Bool

abbrev pub new : ℕ → IpAddr → ℕ → Address
new index address prefix = record {
  index = index;
  address = address;
  prefix = prefix;
  deprecated = false;
  no_prefix_route = false;
  tentative = false;
}

abbrev pub is_v6_link_local : ℕ → Bool
is_v6_link_local = is_link_local

-- Neither loopback nor an IPv6 link-local address.
unfoldable pub usable : Address → Bool
usable a = elim a.address [
  | IpAddr.v4 b ↦ not (b / 2 ^ 24 == 127)
  | IpAddr.v6 b ↦ not (b == 1) && not (is_v6_link_local b)
]

pub record Route : Type 0 where
  pub index : ℕ
  pub destination : IpAddr
  pub prefix : ℕ
  pub gateway : Option IpAddr
  pub metric : ℕ
  pub protocol : ℕ

abbrev pub is_default : Route → Bool
is_default r = r.prefix == 0

abbrev pub is_v4 : Route → Bool
is_v4 r = is_v4_address r.destination

-- `links` is the map, each link with its key.
pub record Observed : Type 0 where
  pub links : List (ℕ × Link)
  pub addresses : List Address
  pub routes : List Route

abbrev pub addresses_of : ℕ → Observed → List Address
addresses_of index o = filter (λ a. a.index == index) o.addresses

abbrev pub routes_of : ℕ → Observed → List Route
routes_of index o = filter (λ r. r.index == index) o.routes

unfoldable pub link_of : ℕ → List (ℕ × Link) → Option Link
link_of index [] = none
link_of index ((key, l) ∷ ls) = if key == index then some l else link_of index ls

-- The derived order compares field by field, as these lists of numbers compare.
abbrev pub bit : Bool → ℕ
bit false = 0
bit true = 1

abbrev pub ip_key : IpAddr → List ℕ
ip_key (IpAddr.v4 a) = 0 ∷ a ∷ []
ip_key (IpAddr.v6 a) = 1 ∷ a ∷ []

abbrev pub gateway_key : Option IpAddr → List ℕ
gateway_key none = 0 ∷ 0 ∷ 0 ∷ []
gateway_key (some a) = 1 ∷ ip_key a

abbrev pub address_key : Address → List ℕ
address_key a =
    a.index
    ∷ (ip_key a.address
        ++ (a.prefix ∷ bit a.deprecated ∷ bit a.no_prefix_route ∷ bit a.tentative ∷ []))

abbrev pub route_key : Route → List ℕ
route_key r =
    r.index
    ∷ (ip_key r.destination ++ (r.prefix ∷ (gateway_key r.gateway ++ (r.metric ∷ r.protocol ∷ []))))
