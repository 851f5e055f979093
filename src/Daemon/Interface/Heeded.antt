-- ===== src/Daemon/Interface/Heeded.antt =====
-- netd/src/main.rs: what `desired` takes of what the network offers.
use netd.Base.{
  ℕ, ◌≡◌, refl, ap, ◌∙◌, inl, inr, Bool, true, false, ◌&&◌, not, Option, none, some, List, [], ◌∷◌,
  ◌++◌, arith, if◌then◌else◌, Bool-cases, is_some, or_else,
}
use netd.Base.Time.{Instant}
use mathlib.Core.Path.{subst}
use netd.Core.Profile.{StaticAddress, Profile, Outcome}
use netd.Dhcp4.Lease.{Lease}
use netd.Daemon.Reconcile.{Desired}
use netd.Daemon.Restart.{Ipv4, preserve}
use netd.Daemon.Interface.{
  Interface, offered_mtu, metric, nothing, with_statics, with_static, with_lease, with_link_local,
  with_restart, paired, is_empty, joined4, joined, desired_for, desired,
}
use netd.Base.Net.{IpAddr}

-- The way out over IPv4 is the same.
abbrev SameWay : Desired → Desired → Type 0
SameWay d e = (e.routes ≡ d.routes) × (e.default_route ≡ d.default_route)

with_static-SameWay : (s : StaticAddress) (a : IpAddr) (d : Desired) → SameWay d (with_static s a d)
with_static-SameWay s (IpAddr.v4 a) d = (refl, refl)
with_static-SameWay s (IpAddr.v6 a) d = (refl, refl)

with_statics-SameWay : (ss : List StaticAddress) (d : Desired) → SameWay d (with_statics ss d)
unfolding with_statics
with_statics-SameWay [] d = (refl, refl)
with_statics-SameWay (s ∷ ss) d =
    let one = with_static-SameWay s s.address d in
    let more = with_statics-SameWay ss (with_static s s.address d) in
    (more.0 ∙ one.0, more.1 ∙ one.1)

with_lease_routes :
    (l : Option Lease) (metric : ℕ) (d : Desired)
    → d.routes ≡ []
    → (with_lease l false metric d).routes ≡ []
unfolding with_lease
with_lease_routes none metric d h = h
with_lease_routes (some l) metric d h = ap (λ r. r ++ []) h

with_link_local-SameWay :
    (a : Option ℕ) (alone : Bool) (d : Desired) → SameWay d (with_link_local a alone d)
unfolding with_link_local
with_link_local-SameWay none alone d = (refl, refl)
with_link_local-SameWay (some a) true d = (refl, refl)
with_link_local-SameWay (some a) false d = (refl, refl)

with_restart-SameWay :
    (k : Option Ipv4) (metric : ℕ) (d : Desired) → SameWay d (with_restart k false metric d)
unfolding with_restart preserve
with_restart-SameWay none metric d = (refl, refl)
with_restart-SameWay (some k) metric d = (refl, refl)

-- The ways out are those that the profile names.
abbrev pub IsOwnWay : ℕ → Profile → Desired → Type 0
IsOwnWay metric p d =
    (d.routes ≡ [])
    × (d.default_route ≡ paired metric p.address.gateway)
    × (d.default_route6 ≡ paired metric p.address.gateway6)

or_none : (x : Option ℕ) → or_else x none ≡ x
or_none none = refl
or_none (some a) = refl

joined4-way :
    (i : Interface) (p : Profile) (d : Desired)
    → p.address.route_offered ≡ false
    → d.routes ≡ []
    → ((joined4 i p d).routes ≡ [])
      × ((joined4 i p d).default_route ≡ paired (metric i) p.address.gateway)
unfolding joined4
joined4-way i p d h e =
    let d0 = with_statics p.address.statics d in
    let d1 = with_lease i.lease false (metric i) d0 in
    let d2 =
      with_link_local i.link_local (not (is_some i.lease) && is_empty p.address.statics) d1 in
    let d3 : Desired = record d2 {
      default_route = paired (metric i) (or_else p.address.gateway none);
    } in
    let last = with_restart-SameWay i.restart (metric i) d3 in
    let routes =
      with_lease_routes i.lease (metric i) d0 ((with_statics-SameWay p.address.statics d).0 ∙ e) in
    let local =
      with_link_local-SameWay i.link_local (not (is_some i.lease) && is_empty p.address.statics)
        d1 in
    rw h (last.0 ∙ (local.0 ∙ routes), last.1 ∙ ap (paired (metric i)) (or_none p.address.gateway))

joined-IsOwnWay :
    (now : Instant) (i : Interface) (p : Profile)
    → p.address.route_offered ≡ false
    → IsOwnWay (metric i) p (joined now i p)
unfolding joined
joined-IsOwnWay now i p h =
    let base : Desired = record (nothing i.link.index) {
      up = true;
      mtu = or_else p.address.mtu (if p.address.mtu_offered then offered_mtu i else none);
    } in
    let (routes, way) = joined4-way i p base h refl in
    (routes, way, rw h (ap (paired (metric i)) (or_none p.address.gateway6)))

-- Whatever a lease, the routers on the link and the configuration before a restart say: where a profile
-- is joined that does not take offered routes, what is desired has no route but the profile's own
-- gateways, with the interface's metric.
pub desired-IsOwnWay :
    (now : Instant) (i : Interface) (p : Profile) (d : Desired)
    → i.judgment.outcome ≡ Outcome.join p
    → p.address.route_offered ≡ false
    → desired now i ≡ some d
    → IsOwnWay (metric i) p d
unfolding desired desired_for
desired-IsOwnWay now i p d join off h = elim (Bool-cases i.link.loopback) [
  | inl l ↦ ground (arith, h, l)
  | inr l ↦
      let is_joined : joined now i p ≡ d = ground (arith, h, l, join) in
      subst (IsOwnWay (metric i) p) is_joined (joined-IsOwnWay now i p off)
]
