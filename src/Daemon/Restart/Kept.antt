-- ===== src/Daemon/Restart/Kept.antt =====
-- netd/src/restart.rs: what is captured, and what preserving it leaves alone.
use netd.Base.{
  filter, All-filter, All-each, All-map, All-imp, ℕ, ◌≤◌, ◌≡◌, refl, sym, ap, ◌∙◌, inl, inr, Bool,
  true, ◌&&◌, Option, none, some, List, [], ◌∷◌, ◌++◌, map, arith, ◌==◌, Bool-cases, length, All,
}
use mathlib.Core.Path.{subst}
use mathlib.Core.List.{append_assoc, append-nil}
use netd.Daemon.Model.{
  IpAddr, Route, Observed, rtprot_netd, is_default, is_v4, addresses_of, routes_of,
}
use netd.Daemon.Reconcile.{Desired, same_ip}
use netd.Daemon.Restart.{
  Ipv4, capture, kept, get_or_insert, preserve_route, preserve_routes, preserve,
}

-- What is captured for a requested address.
abbrev pub IsCapture : ℕ → Ipv4 → Type 0
IsCapture requested k =
    (1 ≤ length k.addresses)
    × All (λ a. a.0 ≡ requested) k.addresses
    × All (λ r. (is_v4 r ≡ true) × (r.protocol ≡ rtprot_netd)) k.routes

kept-IsCapture :
    (requested : ℕ) (as' : List (ℕ × ℕ)) (routes : List Route) (k : Ipv4)
    → All (λ a. a.0 ≡ requested) as'
    → All (λ r. (is_v4 r ≡ true) × (r.protocol ≡ rtprot_netd)) routes
    → kept as' routes ≡ some k
    → IsCapture requested k
kept-IsCapture requested [] routes k h g e = cc
kept-IsCapture requested (a ∷ as') routes k h g e =
    let all : IsCapture requested (record { addresses = a ∷ as'; routes = routes }) =
      (omega arith, h, g) in
    subst (IsCapture requested) {x = record { addresses = a ∷ as'; routes = routes }}
      (ground (arith, e)) all

-- Nothing but the requested address is captured, with at least one prefix, and no routes but IPv4
-- routes that netd made.
pub capture-IsCapture :
    (o : Observed) (index requested : ℕ) (k : Ipv4)
    → capture o index (some requested) ≡ some k
    → IsCapture requested k
unfolding capture
capture-IsCapture o index requested k e =
    let found = filter (λ a. same_ip a.address (IpAddr.v4 requested)) (addresses_of index o) in
    kept-IsCapture requested (map (λ a. (requested, a.prefix)) found) _ k
      (All-map (λ a. a.0 ≡ requested) (λ a. (requested, a.prefix)) found
        (All-each (λ a. requested ≡ requested) found (λ a. refl)))
      (All-imp _ (λ r. (is_v4 r ≡ true) × (r.protocol ≡ rtprot_netd)) _ (λ r h. ground (arith, h))
        (All-filter (λ (r : Route). Unit) (λ r. is_v4 r && r.protocol == rtprot_netd)
          (routes_of index o) (All-each (λ (r : Route). Unit) (routes_of index o) (λ r. tt))))
      e

-- `e` is `d` with addresses `more`, perhaps with routes behind its own, and with a default route where
-- it had none.
pub record Extends (d e : Desired) (more : List (ℕ × ℕ)) : Type 0 where
  pub index : e.index ≡ d.index
  pub up : e.up ≡ d.up
  mtu : e.mtu ≡ d.mtu
  pub addresses : e.addresses ≡ d.addresses ++ more
  addresses6 : e.addresses6 ≡ d.addresses6
  broadcast : e.broadcast ≡ d.broadcast
  default_route6 : e.default_route6 ≡ d.default_route6
  routes : (rs : List (ℕ × ℕ × ℕ × ℕ)) × (e.routes ≡ d.routes ++ rs)
  explicit_gateway : (x : ℕ × ℕ) → d.default_route ≡ some x → e.default_route ≡ some x

preserve_route-Extends :
    (destination : IpAddr) (gateway : Option IpAddr) (r : Route) (metric : ℕ) (d e : Desired)
    (more : List (ℕ × ℕ))
    → Extends d e more
    → Extends d (preserve_route destination gateway r metric e) more
preserve_route-Extends (IpAddr.v4 a) (some (IpAddr.v4 g)) r metric d e more h =
    elim (Bool-cases (is_default r)) [
      | inl p ↦ rw p (record {
        index = h.index;
        up = h.up;
        mtu = h.mtu;
        addresses = h.addresses;
        addresses6 = h.addresses6;
        broadcast = h.broadcast;
        default_route6 = h.default_route6;
        routes = h.routes;
        explicit_gateway = λ x k. ap (λ o. get_or_insert o (g, metric)) (h.explicit_gateway x k);
      })
      | inr p ↦ rw p (record {
        index = h.index;
        up = h.up;
        mtu = h.mtu;
        addresses = h.addresses;
        addresses6 = h.addresses6;
        broadcast = h.broadcast;
        default_route6 = h.default_route6;
        routes = (
          h.routes.0 ++ ((a, r.prefix, g, metric) ∷ []),
          ap (λ q. q ++ ((a, r.prefix, g, metric) ∷ [])) h.routes.1
              ∙ append_assoc d.routes h.routes.0 ((a, r.prefix, g, metric) ∷ []),
        );
        explicit_gateway = h.explicit_gateway;
      })
    ]
preserve_route-Extends (IpAddr.v4 a) (some (IpAddr.v6 g)) r metric d e more h = h
preserve_route-Extends (IpAddr.v4 a) none r metric d e more h = h
preserve_route-Extends (IpAddr.v6 a) gateway r metric d e more h = h

preserve_routes-Extends :
    (rs : List Route) (metric : ℕ) (d e : Desired) (more : List (ℕ × ℕ))
    → Extends d e more
    → Extends d (preserve_routes rs metric e) more
unfolding preserve_routes
preserve_routes-Extends [] metric d e more h = h
preserve_routes-Extends (r ∷ rs) metric d e more h =
    preserve_routes-Extends rs metric d (preserve_route r.destination r.gateway r metric e) more
      (preserve_route-Extends r.destination r.gateway r metric d e more h)

-- Preserving adds the captured addresses behind the desired ones, adds routes at most behind the
-- desired ones, leaves a default gateway that is already desired as it is, and changes nothing of the
-- link, of IPv6 or of the broadcast address.
pub preserve-Extends :
    (k : Ipv4) (offered_routes : Bool) (metric : ℕ) (d : Desired)
    → Extends d (preserve k offered_routes metric d) k.addresses
unfolding preserve
preserve-Extends k offered_routes metric d =
    let d1 = record d { addresses = d.addresses ++ k.addresses } in
    let start : Extends d d1 k.addresses = record {
      index = refl;
      up = refl;
      mtu = refl;
      addresses = refl;
      addresses6 = refl;
      broadcast = refl;
      default_route6 = refl;
      routes = ([], sym (append-nil d.routes));
      explicit_gateway = λ x h. h;
    } in
    elim (Bool-cases offered_routes) [
      | inl p ↦ rw p (preserve_routes-Extends k.routes metric d d1 k.addresses start)
      | inr p ↦ rw p start
    ]
