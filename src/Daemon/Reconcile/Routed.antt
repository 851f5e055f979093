-- ===== src/Daemon/Reconcile/Routed.antt =====
-- netd/src/reconcile.rs: when `plan_routes` has nothing to do, over the lists that it is given.
use netd.Base.{
  filter, ℕ, ◌≡◌, ◌≢◌, refl, sym, ap, ◌∙◌, ◌⊎◌, ◌↔◌, inl, inr, true, false, Option, none, some,
  List, map, arith, ◌==◌, Bool-cases, All,
}
use mathlib.Core.Path.{subst}
use netd.Base.Members.{In, In-map, In-filter, In-All, All-In}
use netd.Daemon.Model.{IpAddr, Route, Observed, routes_of, route_key, rtprot_netd}
use netd.Daemon.BtreeSet.{contains, from_list}
use netd.Daemon.Reconcile.{
  Desired, route4, default6, with_default4, with_default6, want_routes, have_routes,
}
use netd.Daemon.Reconcile.Keys.{route_key-eq, contains-In, In-from_list, In-insert}

-- A route of netd.
abbrev owned : ℕ → IpAddr → ℕ → IpAddr → ℕ → Route
owned index destination prefix gateway metric = record {
  index = index;
  destination = destination;
  prefix = prefix;
  gateway = some gateway;
  metric = metric;
  protocol = 200;
}

-- What is desired: the static routes and the two default routes, and for a metric of 0 of the IPv6 one
-- what the kernel makes of it, 1024.
pub data Desires (d : Desired) : Route → Type 0 where
  static :
      (destination prefix gateway metric : ℕ)
      → In (destination, prefix, gateway, metric) d.routes
      → Desires d (owned d.index (IpAddr.v4 destination) prefix (IpAddr.v4 gateway) metric)
  by_default4 :
      (gateway metric : ℕ)
      → d.default_route ≡ some (gateway, metric)
      → Desires d (owned d.index (IpAddr.v4 0) 0 (IpAddr.v4 gateway) metric)
  by_default6 :
      (gateway metric : ℕ)
      → d.default_route6 ≡ some (gateway, metric)
      → metric ≢ 0
      → Desires d (owned d.index (IpAddr.v6 0) 0 (IpAddr.v6 gateway) metric)
  by_default6_unset :
      (gateway : ℕ)
      → d.default_route6 ≡ some (gateway, 0)
      → Desires d (owned d.index (IpAddr.v6 0) 0 (IpAddr.v6 gateway) 1024)

-- An observed route that may stand: one of another link or another program, or one that is desired.
pub data Stands (d : Desired) (r : Route) : Type 0 where
  elsewhere : r.index ≢ d.index → Stands d r
  foreign : r.protocol ≢ 200 → Stands d r
  desired : Desires d r → Stands d r

-- netd's routes of the link are the desired ones.
pub record Routed (o : Observed) (d : Desired) : Type 0 where
  pub no_extra : All (Stands d) o.routes
  pub none_missing : (r : Route) → Desires d r → In r o.routes

default4-In :
    (index : ℕ) (o : Option (ℕ × ℕ)) (s : List Route) (r : Route)
    → In r (with_default4 index o s)
      ↔ (((w : ℕ × ℕ) × (o ≡ some w) × (r ≡ route4 index (0, 0, w.0, w.1))) ⊎ In r s)
default4-In index none s r = (λ h. inr h, λ h. elim h [ inl (w, e, k) ↦ cc e | inr h ↦ h ])
default4-In index (some (g, m)) s r =
    let (there, back) = In-insert route_key route_key-eq (route4 index (0, 0, g, m)) r s in
    (
      λ h. elim (there h) [ inl e ↦ inl ((g, m), refl, e) | inr t ↦ inr t ],
      λ h. elim h [
        | inl (w, e, k) ↦
            let same : w ≡ (g, m) = ground (arith, e) in
            back (inl (k ∙ ap (λ (v : ℕ × ℕ). route4 index (0, 0, v.0, v.1)) same))
        | inr t ↦ back (inr t)
      ],
    )

default6-In :
    (index : ℕ) (o : Option (ℕ × ℕ)) (s : List Route) (r : Route)
    → In r (with_default6 index o s)
      ↔ (((w : ℕ × ℕ) × (o ≡ some w) × (r ≡ default6 index w)) ⊎ In r s)
default6-In index none s r = (λ h. inr h, λ h. elim h [ inl (w, e, k) ↦ cc e | inr h ↦ h ])
default6-In index (some x) s r =
    let (there, back) = In-insert route_key route_key-eq (default6 index x) r s in
    (
      λ h. elim (there h) [ inl e ↦ inl (x, refl, e) | inr t ↦ inr t ],
      λ h. elim h [
        | inl (w, e, k) ↦
            let same : w ≡ x = ground (arith, e) in back (inl (k ∙ ap (default6 index) same))
        | inr t ↦ back (inr t)
      ],
    )

default6-Desires :
    (d : Desired) (w : ℕ × ℕ) → d.default_route6 ≡ some w → Desires d (default6 d.index w)
default6-Desires d (g, m) e = elim (Bool-cases (m == 0)) [
  | inl z ↦
      let unset : m ≡ 0 = ground (arith, z) in
      rw z (by_default6_unset g (e ∙ ap (λ x. some (g, x)) unset))
  | inr z ↦ rw z (by_default6 g m e (λ k. ground (arith, z, k)))
]

module _ (o : Observed) (d : Desired) where
  s : List Route
  s = from_list route_key (map (route4 d.index) d.routes)

  want-Desires : (r : Route) → In r (want_routes d) → Desires d r
  unfolding s
  want-Desires r h =
      elim ((default6-In d.index d.default_route6 (with_default4 d.index d.default_route s) r).0
        h) [
          | inl (w, e, k) ↦ subst (Desires d) (sym k) (default6-Desires d w e)
          | inr h ↦ elim ((default4-In d.index d.default_route s r).0 h) [
            | inl (w, e, k) ↦ subst (Desires d) (sym k) (by_default4 w.0 w.1 e)
            | inr h ↦
                let (x, m, k) =
                  (In-map (route4 d.index) d.routes r).0
                    ((In-from_list route_key route_key-eq r (map (route4 d.index) d.routes)).0 h) in
                subst (Desires d) (sym k) (static x.0 x.1 x.2 x.3 m)
          ]
        ]

  -- Behind the two default routes.
  behind4 : (r : Route) → In r (with_default4 d.index d.default_route s) → In r (want_routes d)
  unfolding s
  behind4 r h =
      (default6-In d.index d.default_route6 (with_default4 d.index d.default_route s) r).1 (inr h)

  Desires-want : (r : Route) → Desires d r → In r (want_routes d)
  unfolding s
  Desires-want _ (static a p g m h) =
      let r = route4 d.index (a, p, g, m) in
      let listed = (In-map (route4 d.index) d.routes r).1 ((a, p, g, m), h, refl) in
      let set = (In-from_list route_key route_key-eq r (map (route4 d.index) d.routes)).1 listed in
      behind4 r ((default4-In d.index d.default_route s r).1 (inr set))
  Desires-want _ (by_default4 g m e) =
      let r = route4 d.index (0, 0, g, m) in
      behind4 r ((default4-In d.index d.default_route s r).1 (inl ((g, m), e, refl)))
  Desires-want _ (by_default6 g m e z) =
      let set : (m == 0) ≡ false = ground (arith, z) in
      (default6-In d.index d.default_route6 (with_default4 d.index d.default_route s)
          (owned d.index (IpAddr.v6 0) 0 (IpAddr.v6 g) m)).1
        (inl ((g, m), e, rw set refl))
  Desires-want _ (by_default6_unset g e) =
      (default6-In d.index d.default_route6 (with_default4 d.index d.default_route s)
          (default6 d.index (g, 0))).1
        (inl ((g, 0), e, refl))

  Desires-owned : (r : Route) → Desires d r → (r.index ≡ d.index) × (r.protocol ≡ 200)
  Desires-owned _ (static a p g m h) = (refl, refl)
  Desires-owned _ (by_default4 g m e) = (refl, refl)
  Desires-owned _ (by_default6 g m e z) = (refl, refl)
  Desires-owned _ (by_default6_unset g e) = (refl, refl)

  have-In :
      (r : Route)
      → In r (have_routes o d.index) ↔ (In r o.routes × (r.index ≡ d.index) × (r.protocol ≡ 200))
  have-In r =
      let mine = filter (λ r. r.protocol == rtprot_netd) (routes_of d.index o) in
      let (set, set') = In-from_list route_key route_key-eq r mine in
      let (by_netd, by_netd') =
        In-filter (λ (r : Route). r.protocol == rtprot_netd) (routes_of d.index o) r in
      let (here, here') = In-filter (λ (r : Route). r.index == d.index) o.routes r in
      (
        λ h.
            let (m1, p) = by_netd (set h) in
            let (m2, i) = here m1 in (m2, ground (arith, i), ground (arith, p)),
        λ (m, i, p). set' (by_netd' (here' (m, ground (arith, i)), ground (arith, p))),
      )

  stands_iff :
      (r : Route)
      → In r o.routes
      → (In r (have_routes o d.index) → In r (want_routes d))
      → Stands d r
  stands_iff r m f = elim (Bool-cases (r.index == d.index)) [
    | inr far ↦ elsewhere (λ e. ground (arith, far, e))
    | inl i ↦ elim (Bool-cases (r.protocol == 200)) [
      | inr p ↦ foreign (λ e. ground (arith, p, e))
      | inl p ↦
          desired (want-Desires r (f ((have-In r).1 (m, ground (arith, i), ground (arith, p)))))
    ]
  ]

  Stands-want :
      (r : Route) → r.index ≡ d.index → r.protocol ≡ 200 → Stands d r → In r (want_routes d)
  Stands-want r i p (elsewhere far) = absurd (far i)
  Stands-want r i p (foreign f) = absurd (f p)
  Stands-want r i p (desired h) = Desires-want r h

  pub extra_route_iff :
      All (λ r. contains route_key (want_routes d) r ≡ true) (have_routes o d.index)
      ↔ All (Stands d) o.routes
  extra_route_iff =
      let wanted = λ (r : Route). contains-In route_key route_key-eq r (want_routes d) in
      (
        λ h. In-All (Stands d) o.routes (λ r m. stands_iff r m (λ k. (wanted r).0 (
            All-In (λ r. contains route_key (want_routes d) r ≡ true) (have_routes o d.index) h r
              k))),
        λ h.
            In-All (λ r. contains route_key (want_routes d) r ≡ true) (have_routes o d.index)
              (λ r k.
                let (m, i, p) = (have-In r).0 k in
                (wanted r).1 (Stands-want r i p (All-In (Stands d) o.routes h r m))),
      )

  pub missing_route_iff :
      All (λ r. contains route_key (have_routes o d.index) r ≡ true) (want_routes d)
      ↔ ((r : Route) → Desires d r → In r o.routes)
  missing_route_iff =
      let there = λ (r : Route). contains-In route_key route_key-eq r (have_routes o d.index) in
      (
        λ h r w.
            let found =
              All-In (λ r. contains route_key (have_routes o d.index) r ≡ true) (want_routes d) h r
                (Desires-want r w) in
            ((have-In r).0 ((there r).0 found)).0,
        λ h.
            In-All (λ r. contains route_key (have_routes o d.index) r ≡ true) (want_routes d)
              (λ r k.
                let w = want-Desires r k in
                let (i, p) = Desires-owned r w in (there r).1 ((have-In r).1 (h r w, i, p))),
      )
