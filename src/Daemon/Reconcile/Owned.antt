-- ===== src/Daemon/Reconcile/Owned.antt =====
-- netd/src/reconcile.rs: what a plan may touch.
use netd.Base.{
  filter, All-filter, All-each, All-map, All-imp, ℕ, ◌≤◌, ◌≡◌, refl, sym, inl, inr, Bool, true,
  false, ◌&&◌, not, Option, none, some, List, [], ◌∷◌, ◌++◌, map, arith, leb, ◌==◌, if◌then◌else◌,
  Bool-cases, Option-cases, All, All-append,
}
use mathlib.Core.Path.{subst}
use netd.Daemon.Model.{
  Link, Address, Route, Observed, rtprot_netd, addresses_of, routes_of, link_of, address_key,
  route_key,
}
use netd.Daemon.BtreeSet.{contains, insert-All, from_list-All}
use netd.Daemon.Reconcile.{
  Desired, Op, link_up, link_down, mtu, add_address, del_address, add_route, del_route, address4,
  address6, want, is_managed, settled, have, wanted_key, plan_addresses, route4, default6,
  want_routes, have_routes, difference, plan_routes, plan_mtu, plan, plan_on, plan-link,
  plan_missing, with_default4, with_default6,
}

-- The licence for one step: it is on the interface in question; a deleted address is managed and no
-- desired one names it; a deleted route carries netd's own protocol and is not desired; an added one
-- carries it too; and an MTU is the desired one, 68 at least.
abbrev pub Owned : Desired → Op → Type 0
Owned d (link_up i) = (i ≡ d.index) × (d.up ≡ true)
Owned d (link_down i) = (i ≡ d.index) × (d.up ≡ false)
Owned d (mtu i m) = (i ≡ d.index) × (d.mtu ≡ some m) × (68 ≤ m)
Owned d (add_address a b) = (a.index ≡ d.index) × (b ≡ d.broadcast)
Owned d (del_address a) =
    (a.index ≡ d.index) × (is_managed a.address ≡ true) × (wanted_key (want d) a ≡ false)
Owned d (add_route r) = (r.index ≡ d.index) × (r.protocol ≡ rtprot_netd)
Owned d (del_route r) =
    (r.index ≡ d.index)
    × (r.protocol ≡ rtprot_netd)
    × (contains route_key (want_routes d) r ≡ false)

-- An address, and a route, that netd would make.
abbrev Ours : ℕ → Route → Type 0
Ours index r = (r.index ≡ index) × (r.protocol ≡ rtprot_netd)

have_lem :
    (o : Observed) (index : ℕ)
    → All (λ a. (a.index ≡ index) × (is_managed a.address ≡ true)) (have o index)
have_lem o index =
    from_list-All address_key (λ a. (a.index ≡ index) × (is_managed a.address ≡ true))
      (map settled (filter (λ a. is_managed a.address) (addresses_of index o)))
      (All-map (λ a. (a.index ≡ index) × (is_managed a.address ≡ true)) settled
        (filter (λ a. is_managed a.address) (addresses_of index o))
        (All-filter (λ a. a.index ≡ index) (λ a. is_managed a.address) (addresses_of index o)
          (All-imp (λ (a : Address). Unit × ((a.index == index) ≡ true))
            (λ (a : Address). a.index ≡ index) (addresses_of index o) (λ a h. ground (arith, h))
            (All-filter (λ (a : Address). Unit) (λ a. a.index == index) o.addresses
              (All-each (λ (a : Address). Unit) o.addresses (λ a. tt))))))

want_lem : (d : Desired) → All (λ a. a.index ≡ d.index) (want d)
want_lem d =
    from_list-All address_key (λ a. a.index ≡ d.index)
      (map (address4 d.index) d.addresses ++ map (address6 d.index) d.addresses6)
      (All-append (λ a. a.index ≡ d.index) (map (address4 d.index) d.addresses)
        (map (address6 d.index) d.addresses6)
        (All-map (λ a. a.index ≡ d.index) (address4 d.index) d.addresses
          (All-each (λ x. d.index ≡ d.index) d.addresses (λ x. refl)))
        (All-map (λ a. a.index ≡ d.index) (address6 d.index) d.addresses6
          (All-each (λ x. d.index ≡ d.index) d.addresses6 (λ x. refl))))

plan_addresses-Owned : (o : Observed) (d : Desired) → All (Owned d) (plan_addresses o d)
unfolding plan_addresses
plan_addresses-Owned o d =
    let gone = filter (λ a. not (wanted_key (want d) a)) (have o d.index) in
    let fresh = filter (λ a. not (contains address_key (have o d.index) a)) (want d) in
    All-append (Owned d) (map del_address gone) (map (λ a. add_address a d.broadcast) fresh)
      (All-map (Owned d) del_address gone (
        All-imp _ (λ a. Owned d (del_address a)) gone (λ a h. ground (arith, h))
          (All-filter (λ a. (a.index ≡ d.index) × (is_managed a.address ≡ true))
            (λ a. not (wanted_key (want d) a)) (have o d.index) (have_lem o d.index))))
      (All-map (Owned d) (λ a. add_address a d.broadcast) fresh
        (All-imp _ (λ a. Owned d (add_address a d.broadcast)) fresh (λ a h. (h.0, refl))
          (All-filter (λ a. a.index ≡ d.index) (λ a. not (contains address_key (have o d.index) a))
            (want d) (want_lem d))))

have_routes_lem : (o : Observed) (index : ℕ) → All (Ours index) (have_routes o index)
have_routes_lem o index =
    from_list-All route_key (Ours index)
      (filter (λ r. r.protocol == rtprot_netd) (routes_of index o))
      (All-imp (λ (r : Route). (r.index ≡ index) × ((r.protocol == rtprot_netd) ≡ true))
        (Ours index) (filter (λ r. r.protocol == rtprot_netd) (routes_of index o))
        (λ r h. ground (arith, h))
        (All-filter (λ r. r.index ≡ index) (λ r. r.protocol == rtprot_netd) (routes_of index o)
          (All-imp (λ (r : Route). Unit × ((r.index == index) ≡ true))
            (λ (r : Route). r.index ≡ index) (routes_of index o) (λ r h. ground (arith, h))
            (All-filter (λ (r : Route). Unit) (λ r. r.index == index) o.routes
              (All-each (λ (r : Route). Unit) o.routes (λ r. tt))))))

default4-Ours :
    (index : ℕ) (r : Option (ℕ × ℕ)) (s : List Route)
    → All (Ours index) s
    → All (Ours index) (with_default4 index r s)
default4-Ours index none s h = h
default4-Ours index (some (g, m)) s h =
    insert-All route_key (Ours index) (route4 index (0, 0, g, m)) s (refl, refl) h

default6-Ours :
    (index : ℕ) (r : Option (ℕ × ℕ)) (s : List Route)
    → All (Ours index) s
    → All (Ours index) (with_default6 index r s)
default6-Ours index none s h = h
default6-Ours index (some r) s h =
    insert-All route_key (Ours index) (default6 index r) s (refl, refl) h

want_routes_lem : (d : Desired) → All (Ours d.index) (want_routes d)
want_routes_lem d = default6-Ours d.index d.default_route6 _ (
    default4-Ours d.index d.default_route _ (
      from_list-All route_key (Ours d.index) (map (route4 d.index) d.routes) (
        All-map (Ours d.index) (route4 d.index) d.routes
          (All-each (λ x. Ours d.index (route4 d.index x)) d.routes (λ x. (refl, refl))))))

plan_routes-Owned : (o : Observed) (d : Desired) → All (Owned d) (plan_routes o d)
unfolding plan_routes
plan_routes-Owned o d =
    let gone = difference (have_routes o d.index) (want_routes d) in
    let fresh = difference (want_routes d) (have_routes o d.index) in
    All-append (Owned d) (map del_route gone) (map add_route fresh)
      (All-map (Owned d) del_route gone (
        All-imp _ (λ r. Owned d (del_route r)) gone (λ r h. ground (arith, h))
          (All-filter (Ours d.index) (λ r. not (contains route_key (want_routes d) r))
            (have_routes o d.index) (have_routes_lem o d.index))))
      (All-map (Owned d) add_route fresh (
        All-imp _ (λ r. Owned d (add_route r)) fresh (λ r h. h.0)
          (All-filter (Ours d.index) (λ r. not (contains route_key (have_routes o d.index) r))
            (want_routes d) (want_routes_lem d))))

plan_mtu-Owned :
    (d : Desired) (m : Option ℕ) (link : Link) → d.mtu ≡ m → All (Owned d) (plan_mtu d.index m link)
plan_mtu-Owned d none link e = tt
plan_mtu-Owned d (some m) link e = elim (Bool-cases (not (m == link.mtu) && leb 68 m)) [
  | inl h ↦ rw h ((refl, e, ground (arith, h)), tt)
  | inr h ↦ rw h tt
]

one_step :
    (d : Desired) (b : Bool) (op : Op)
    → (b ≡ true → Owned d op)
    → All (Owned d) (if b then op ∷ [] else [])
one_step d true op h = (h refl, tt)
one_step d false op h = tt

plan_on-Owned : (o : Observed) (d : Desired) (link : Link) → All (Owned d) (plan_on o d link)
plan_on-Owned o d link =
    All-append (Owned d) _ _
      (one_step d (d.up && not link.up) (link_up d.index) (λ h. (refl, ground (arith, h))))
      (All-append (Owned d) _ _ (plan_mtu-Owned d d.mtu link refl) (
        All-append (Owned d) _ _ (plan_addresses-Owned o d) (
          All-append (Owned d) _ _ (plan_routes-Owned o d) (
            one_step d (not d.up && link.up) (link_down d.index)
              (λ h. (refl, ground (arith, h)))))))

-- Whatever is observed and whatever is desired, each step of the plan is licensed: it is on the
-- desired interface; a link is raised or lowered only as desired; a deleted address is one that netd
-- manages and that no desired address names; a deleted route carries netd's protocol and is not
-- desired, so that no route of another program is touched.
pub plan-Owned : (o : Observed) (d : Desired) → All (Owned d) (plan o d)
plan-Owned o d = elim (Option-cases (link_of d.index o.links)) [
  | inl e ↦ subst (All (Owned d)) (sym (plan_missing o d e)) tt
  | inr (link, e) ↦ subst (All (Owned d)) (sym (plan-link o d link e)) (plan_on-Owned o d link)
]
