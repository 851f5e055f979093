-- ===== src/Ndp/Engine/Observed.antt =====
-- ndp/src/engine.rs: what the caller reads back, the view that holds all of it, and the next deadline.
use netd.Base.{
  ℕ, min, Bool, true, false, ◌&&◌, ◌||◌, not, Option, none, some, List, [], ◌∷◌, ◌++◌, map, ltb,
  leb, ◌==◌, if◌then◌else◌,
}
use netd.Base.Bytes.{less, bytes_eq}
use netd.Base.Equality.{list_eq, option_eq}
use netd.Base.Time.{Instant}
use netd.Wire6.{Ipv6Addr}
use netd.Ndp.Engine.{DesiredAddress, Temp, Prefix, View, Engine}
use netd.Ndp.Engine.Lifetimes.{is_alive, retain}

unfoldable pub default_router : Instant → List (Ipv6Addr × Instant) → Option Ipv6Addr
default_router now [] = none
default_router now ((a, expires) ∷ m) = if ltb now expires then some a else default_router now m

abbrev pub keys : {K V : Type 0} → List (K × V) → List K
keys m = map (λ x. x.0) m

abbrev pub dns_servers : Instant → Engine → List Ipv6Addr
dns_servers now e = keys (retain (is_alive now) e.rdnss)

abbrev pub search_domains : Instant → Engine → List (List ℕ)
search_domains now e = keys (retain (is_alive now) e.dnssl)

-- A temporary address is valid no longer than its prefix.
abbrev pub valid_for : Option Instant → Temp → Instant
valid_for none t = t.valid_until
valid_for (some limit) t = min t.valid_until limit

-- The `for` loop over the temporary addresses of `p`.
unfoldable pub temp_addresses : Instant → ℕ → Prefix → List Temp → List DesiredAddress
temp_addresses now len p [] = []
temp_addresses now len p (t ∷ ts) =
    let rest = temp_addresses now len p ts in
    if ltb now (valid_for p.valid_until t)
    then record {
      address = t.address;
      prefix = len;
      deprecated = not (is_alive now p.preferred_until) || leb t.preferred_until now;
      on_link = p.on_link;
    }
      ∷ rest
    else rest

abbrev pub stable_of : Instant → ℕ → Prefix → DesiredAddress
stable_of now len p = record {
  address = p.stable;
  prefix = len;
  deprecated = not (is_alive now p.preferred_until);
  on_link = p.on_link;
}

-- The `for` loop over the prefixes.
unfoldable pub prefix_addresses : Instant → List ((Ipv6Addr × ℕ) × Prefix) → List DesiredAddress
prefix_addresses now [] = []
prefix_addresses now (((a, len), p) ∷ m) =
    let rest = prefix_addresses now m in
    if is_alive now p.valid_until
    then stable_of now len p ∷ (temp_addresses now len p p.temps ++ rest)
    else rest

-- The derived order of `DesiredAddress` compares these.
abbrev pub bit : Bool → ℕ
bit false = 0
bit true = 1

abbrev pub desired_key : DesiredAddress → List ℕ
desired_key a = a.address ∷ a.prefix ∷ bit a.deprecated ∷ bit a.on_link ∷ []

-- `sort`
unfoldable pub insert_sorted : DesiredAddress → List DesiredAddress → List DesiredAddress
insert_sorted a [] = a ∷ []
insert_sorted a (b ∷ bs) =
    let rest = insert_sorted a bs in
    if less (desired_key b) (desired_key a) then b ∷ rest else a ∷ b ∷ bs

unfoldable pub sort : List DesiredAddress → List DesiredAddress
sort [] = []
sort (a ∷ as') = insert_sorted a (sort as')

unfoldable pub view : Instant → Engine → View
view now e = record {
  addresses = sort (prefix_addresses now e.prefixes);
  router = default_router now e.routers;
  dns = dns_servers now e;
  search = search_domains now e;
  mtu = e.mtu;
  dhcp6 = e.dhcp6_wanted;
}

-- `==` on views.
abbrev pub desired_eq : DesiredAddress → DesiredAddress → Bool
desired_eq a b = bytes_eq (desired_key a) (desired_key b)

abbrev pub bool_eq : Bool → Bool → Bool
bool_eq true b = b
bool_eq false b = not b

unfoldable pub view_eq : View → View → Bool
view_eq v w =
    list_eq desired_eq v.addresses w.addresses
    && (option_eq ◌==◌ v.router w.router
        && (bytes_eq v.dns w.dns
            && (list_eq bytes_eq v.search w.search
                && (option_eq ◌==◌ v.mtu w.mtu && bool_eq v.dhcp6 w.dhcp6))))

-- `consider`
abbrev pub consider : Option Instant → Option Instant → Option Instant
consider deadline none = deadline
consider none (some t) = some t
consider (some d) (some t) = some (min d t)

-- Only what is still to come after the last expiry.
abbrev pub pending : Option Instant → Option Instant → Option Instant
pending none t = t
pending (some e) none = none
pending (some e) (some t) = if ltb e t then some t else none

unfoldable pub consider_temps : Option Instant → List Temp → Option Instant → Option Instant
consider_temps expired [] d = d
consider_temps expired (t ∷ ts) d =
    consider_temps expired ts
      (consider (consider d (pending expired (some t.preferred_until))) (some t.valid_until))

unfoldable pub consider_prefixes :
    Option Instant → List ((Ipv6Addr × ℕ) × Prefix) → Option Instant → Option Instant
consider_prefixes expired [] d = d
consider_prefixes expired ((key, p) ∷ m) d = consider_prefixes expired m (
    consider_temps expired p.temps
      (consider (consider d p.valid_until) (pending expired p.preferred_until)))

unfoldable pub consider_all :
    {K : Type 0} → List (K × Option Instant) → Option Instant → Option Instant
consider_all [] d = d
consider_all ((k, t) ∷ m) d = consider_all m (consider d t)

-- The routers' expiries, as a map of the kind that the servers have.
abbrev pub expiries : List (Ipv6Addr × Instant) → List (Ipv6Addr × Option Instant)
expiries m = map (λ x. (x.0, some x.1)) m

unfoldable pub next_deadline : Engine → Option Instant
next_deadline e = consider_all e.dnssl (
    consider_all e.rdnss
      (consider_prefixes e.expired_at e.prefixes (consider_all (expiries e.routers) e.solicit_at)))
