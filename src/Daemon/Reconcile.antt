-- ===== src/Daemon/Reconcile.antt =====
-- netd/src/reconcile.rs: desired state, diffed against what is observed, and applied. Pushing onto
-- `ops` is appending what the model's function returns.
pub mod Owned
pub mod Empty
pub mod Keys
pub mod Addressed
pub mod Routed
pub mod Settled
pub mod Applied
use netd.Base.{
  filter, ℕ, zero, suc, ◌+◌, ◌-◌, ◌*◌, ◌/◌, ◌%◌, ◌^◌, ◌≤◌, ◌<◌, min, max, bit_and, bit_or, bit_xor,
  ◌≡◌, refl, sym, ap, ◌∙◌, ◌≢◌, ◌⊎◌, ◌↔◌, inl, inr, Bool, true, false, ◌&&◌, ◌||◌, not, Option,
  none, some, List, [], ◌∷◌, ◌++◌, map, arith, ltb, leb, ◌==◌, if◌then◌else◌, ltb→lt, lt→ltb,
  leb→le, le→leb, ==_iff, Bool-cases, Option-cases, get_or_else, is_some, or_else, keep_if,
  map_option, ◌>>=◌, ◌>>◌, guard, Loop, done, stuck, run_or, run_or-done, length, get_elem?, get_or,
  take, drop, replicate, All, All-append, All-take, All-drop, All-replicate, take-append,
  drop-append, length-append, length-take, length-drop, length-replicate, length-map,
}
use netd.Daemon.Model.{
  IpAddr, Link, Address, Route, Observed, rtprot_netd, new, is_v6_link_local, addresses_of,
  routes_of, link_of, address_key, route_key,
}
use netd.Daemon.BtreeSet.{contains, insert, from_list}

pub record DesiredV6 : Type 0 where
  pub address : ℕ
  pub prefix : ℕ
  pub deprecated : Bool
  pub no_prefix_route : Bool

pub record Desired : Type 0 where
  pub index : ℕ
  pub up : Bool
  pub mtu : Option ℕ
  pub addresses : List (ℕ × ℕ)
  pub addresses6 : List DesiredV6
  pub broadcast : Option ℕ
  pub default_route : Option (ℕ × ℕ)
  pub default_route6 : Option (ℕ × ℕ)
  pub routes : List (ℕ × ℕ × ℕ × ℕ)  -- destination, prefix, gateway, metric

pub data Op : Type 0 where
  link_up : ℕ → Op
  link_down : ℕ → Op
  mtu : ℕ → ℕ → Op
  add_address : Address → Option ℕ → Op
  del_address : Address → Op
  add_route : Route → Op
  del_route : Route → Op

abbrev pub address4 : ℕ → ℕ × ℕ → Address
address4 index (a, p) = new index (IpAddr.v4 a) p

abbrev pub address6 : ℕ → DesiredV6 → Address
address6 index d = record {
  index = index;
  address = IpAddr.v6 d.address;
  prefix = d.prefix;
  deprecated = d.deprecated;
  no_prefix_route = d.no_prefix_route;
  tentative = false;
}

abbrev pub want : Desired → List Address
want d =
    from_list address_key
      (map (address4 d.index) d.addresses ++ map (address6 d.index) d.addresses6)

abbrev pub is_managed : IpAddr → Bool
is_managed (IpAddr.v4 a) = true
is_managed (IpAddr.v6 a) = not (is_v6_link_local a)

-- DAD finishing is not a diff.
abbrev pub settled : Address → Address
settled a = record a { tentative = false }

abbrev pub have : Observed → ℕ → List Address
have o index =
    from_list address_key (map settled (filter (λ a. is_managed a.address) (addresses_of index o)))

-- `==` on `IpAddr`.
abbrev pub same_ip : IpAddr → IpAddr → Bool
same_ip (IpAddr.v4 a) (IpAddr.v4 b) = a == b
same_ip (IpAddr.v4 a) (IpAddr.v6 b) = false
same_ip (IpAddr.v6 a) (IpAddr.v4 b) = false
same_ip (IpAddr.v6 a) (IpAddr.v6 b) = a == b

-- `wanted_key`: some wanted address has the address and the prefix of `a`.
unfoldable pub wanted_key : List Address → Address → Bool
wanted_key [] a = false
wanted_key (w ∷ ws) a = same_ip w.address a.address && w.prefix == a.prefix || wanted_key ws a

unfoldable pub plan_addresses : Observed → Desired → List Op
plan_addresses o d =
    map del_address (filter (λ a. not (wanted_key (want d) a)) (have o d.index))
    ++ map (λ a. add_address a d.broadcast)
        (filter (λ a. not (contains address_key (have o d.index) a)) (want d))

abbrev pub route4 : ℕ → ℕ × ℕ × ℕ × ℕ → Route
route4 index (d, p, g, m) = record {
  index = index;
  destination = IpAddr.v4 d;
  prefix = p;
  gateway = some (IpAddr.v4 g);
  metric = m;
  protocol = rtprot_netd;
}

abbrev with_default4 : ℕ → Option (ℕ × ℕ) → List Route → List Route
with_default4 index none s = s
with_default4 index (some (g, m)) s = insert route_key (route4 index (0, 0, g, m)) s

abbrev pub default6 : ℕ → ℕ × ℕ → Route
default6 index (g, m) = record {
  index = index;
  destination = IpAddr.v6 0;
  prefix = 0;
  gateway = some (IpAddr.v6 g);
  metric = if m == 0 then 1024 else m;
  protocol = rtprot_netd;
}

abbrev with_default6 : ℕ → Option (ℕ × ℕ) → List Route → List Route
with_default6 index none s = s
with_default6 index (some r) s = insert route_key (default6 index r) s

abbrev pub want_routes : Desired → List Route
want_routes d =
    with_default6 d.index d.default_route6
      (with_default4 d.index d.default_route (from_list route_key (map (route4 d.index) d.routes)))

abbrev pub have_routes : Observed → ℕ → List Route
have_routes o index =
    from_list route_key (filter (λ r. r.protocol == rtprot_netd) (routes_of index o))

-- `difference`
abbrev pub difference : List Route → List Route → List Route
difference s t = filter (λ r. not (contains route_key t r)) s

unfoldable pub plan_routes : Observed → Desired → List Op
plan_routes o d =
    map del_route (difference (have_routes o d.index) (want_routes d))
    ++ map add_route (difference (want_routes d) (have_routes o d.index))

abbrev pub plan_mtu : ℕ → Option ℕ → Link → List Op
plan_mtu index none link = []
plan_mtu index (some m) link = if not (m == link.mtu) && leb 68 m then mtu index m ∷ [] else []

-- The plan where the kernel has the link.
abbrev pub plan_on : Observed → Desired → Link → List Op
plan_on o d link =
    (if d.up && not link.up then link_up d.index ∷ [] else [])
    ++ (plan_mtu d.index d.mtu link
        ++ (plan_addresses o d
            ++ (plan_routes o d ++ (if not d.up && link.up then link_down d.index ∷ [] else []))))

unfoldable pub plan : Observed → Desired → List Op
plan o d = elim (link_of d.index o.links) [ none ↦ [] | some link ↦ plan_on o d link ]

pub plan-link :
    (o : Observed) (d : Desired) (link : Link)
    → link_of d.index o.links ≡ some link
    → plan o d ≡ plan_on o d link
unfolding plan
plan-link o d link e = rw (e, plan) refl

pub plan_missing : (o : Observed) (d : Desired) → link_of d.index o.links ≡ none → plan o d ≡ []
unfolding plan
plan_missing o d e = rw (e, plan) refl

-- The outcome of a call into the kernel; an error holds its number, where it has one.
pub data Outcome : Type 0 where
  ok : Outcome
  error : Option ℕ → Outcome

-- The trait `Rtnl` over a kernel state: what netd calls, which is netlink.
pub record Rtnl (S : Type 0) : Type 0 where
  pub set_link_up : ℕ → Bool → S → S × Outcome
  pub set_mtu : ℕ → ℕ → S → S × Outcome
  pub add_address_to : Address → Option ℕ → S → S × Outcome
  pub del_address_of : Address → S → S × Outcome
  pub add_route_to : Route → S → S × Outcome
  pub del_route_of : Route → S → S × Outcome

abbrev pub perform : {S : Type 0} → Rtnl S → Op → S → S × Outcome
perform rtnl (link_up i) s = rtnl.set_link_up i true s
perform rtnl (link_down i) s = rtnl.set_link_up i false s
perform rtnl (mtu i m) s = rtnl.set_mtu i m s
perform rtnl (add_address a b) s = rtnl.add_address_to a b s
perform rtnl (del_address a) s = rtnl.del_address_of a s
perform rtnl (add_route r) s = rtnl.add_route_to r s
perform rtnl (del_route r) s = rtnl.del_route_of r s

-- ENOENT, ESRCH and EEXIST are 2, 3 and 17.
abbrev pub benign : Op → Option ℕ → Bool
benign (add_route r) (some e) = e == 17
benign (add_address a b) (some e) = e == 17
benign (del_route r) (some e) = e == 2 || e == 3
benign (del_address a) (some e) = e == 2 || e == 3
benign _ _ = false

abbrev pub counts : Op → Outcome → ℕ
counts op ok = 0
counts op (error e) = if benign op e then 0 else 1

-- The kernel behind `rtnl` after the steps, and the number of failures.
unfoldable pub apply : {S : Type 0} → Rtnl S → List Op → S → S × ℕ
apply rtnl [] s = (s, 0)
apply rtnl (op ∷ ops) s =
    let (s1, result) = perform rtnl op s in
    let (s2, failures) = apply rtnl ops s1 in (s2, counts op result + failures)
