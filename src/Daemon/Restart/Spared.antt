-- ===== src/Daemon/Restart/Spared.antt =====
-- netd/src/restart.rs with netd/src/reconcile.rs: the plan for what was preserved.
use netd.Base.{
  All-filter, All-imp, All-map, filter, ℕ, ◌≡◌, sym, ap, ◌∙◌, inl, inr, Bool, true, false, ◌&&◌,
  not, Option, none, some, List, [], ◌∷◌, map, arith, leb, ◌==◌, if◌then◌else◌, Bool-cases,
  Option-cases, All, All-append,
}
use mathlib.Core.Path.{subst}
use netd.Daemon.Model.{IpAddr, Address, Observed, Link, link_of, address_key, addresses_of}
use netd.Daemon.BtreeSet.{contains}
use netd.Daemon.Reconcile.{
  Desired, same_ip, wanted_key, want, address4, have, Op, del_address, add_address, link_up,
  link_down, mtu, add_route, del_route, plan, plan_mtu, plan_addresses, plan_routes, plan_missing,
  plan-link, difference, want_routes, have_routes,
}
use netd.Daemon.Restart.Kept.{preserve-Extends}
use netd.Daemon.Restart.{Ipv4, capture, preserve}
use netd.Daemon.Restart.Caught.{
  Found, caught, want-Found, caught-Found, capture-addresses, have-Found,
}

-- No step deletes an address that is the requested one.
abbrev pub Spares : ℕ → Op → Type 0
Spares r (del_address a) = same_ip a.address (IpAddr.v4 r) ≡ false
Spares r (add_address a b) = Unit
Spares r (link_up i) = Unit
Spares r (link_down i) = Unit
Spares r (mtu i m) = Unit
Spares r (add_route q) = Unit
Spares r (del_route q) = Unit

map-Spares :
    {A : Type 0} (r : ℕ) (f : A → Op) (xs : List A)
    → ((x : A) → Spares r (f x))
    → All (Spares r) (map f xs)
map-Spares r f [] h = tt
map-Spares r f (x ∷ xs) h = (h x, map-Spares r f xs h)

step-Spares :
    (r : ℕ) (b : Bool) (op : Op) → Spares r op → All (Spares r) (if b then op ∷ [] else [])
step-Spares r true op h = (h, tt)
step-Spares r false op h = tt

plan_mtu-Spares : (r index : ℕ) (m : Option ℕ) (l : Link) → All (Spares r) (plan_mtu index m l)
plan_mtu-Spares r index none l = tt
plan_mtu-Spares r index (some m) l = step-Spares r (not (m == l.mtu) && leb 68 m) (mtu index m) tt

plan_addresses-Spares :
    (o : Observed) (d : Desired) (r : ℕ)
    → All (Found r (want d)) (have o d.index)
    → All (Spares r) (plan_addresses o d)
unfolding plan_addresses
plan_addresses-Spares o d r h =
    let gone = filter (λ a. not (wanted_key (want d) a)) (have o d.index) in
    let fresh = filter (λ a. not (contains address_key (have o d.index) a)) (want d) in
    All-append (Spares r) (map del_address gone) (map (λ a. add_address a d.broadcast) fresh)
      (All-map (Spares r) del_address gone (
        All-imp _ (λ a. Spares r (del_address a)) gone (λ a k. spared a k.0 k.1)
          (All-filter (Found r (want d)) (λ a. not (wanted_key (want d) a)) (have o d.index) h)))
      (map-Spares r (λ a. add_address a d.broadcast) fresh (λ a. tt))
  where
    spared :
        (a : Address)
        → Found r (want d) a
        → not (wanted_key (want d) a) ≡ true
        → same_ip a.address (IpAddr.v4 r) ≡ false
    spared a f n = elim (Bool-cases (same_ip a.address (IpAddr.v4 r))) [
      | inl e ↦ absurd (ground (arith, f e, n))
      | inr e ↦ e
    ]

plan_routes-Spares : (o : Observed) (d : Desired) (r : ℕ) → All (Spares r) (plan_routes o d)
unfolding plan_routes
plan_routes-Spares o d r =
    let gone = difference (have_routes o d.index) (want_routes d) in
    let fresh = difference (want_routes d) (have_routes o d.index) in
    All-append (Spares r) (map del_route gone) (map add_route fresh)
      (map-Spares r del_route gone (λ q. tt)) (map-Spares r add_route fresh (λ q. tt))

plan-Spares :
    (o : Observed) (d : Desired) (r : ℕ)
    → All (Found r (want d)) (have o d.index)
    → All (Spares r) (plan o d)
plan-Spares o d r h = elim (Option-cases (link_of d.index o.links)) [
  | inl e ↦ subst (All (Spares r)) (sym (plan_missing o d e)) tt
  | inr (l, e) ↦ subst (All (Spares r)) (sym (plan-link o d l e)) (
      All-append (Spares r) _ _ (step-Spares r (d.up && not l.up) (link_up d.index) tt) (
        All-append (Spares r) _ _ (plan_mtu-Spares r d.index d.mtu l) (
          All-append (Spares r) _ _ (plan_addresses-Spares o d r h) (
            All-append (Spares r) _ _ (plan_routes-Spares o d r)
              (step-Spares r (not d.up && l.up) (link_down d.index) tt)))))
]

-- Where the requested address was captured, from what is observed, for the interface that `d` is
-- about, the plan for `d` with what was captured preserved deletes no address that is the requested
-- one.
pub preserve-Spares :
    (o : Observed) (d : Desired) (r : ℕ) (k : Ipv4) (offered_routes : Bool) (metric : ℕ)
    → capture o d.index (some r) ≡ some k
    → All (Spares r) (plan o (preserve k offered_routes metric d))
preserve-Spares o d r k offered_routes metric e =
    let d' = preserve k offered_routes metric d in
    let x = preserve-Extends k offered_routes metric d in
    plan-Spares o d' r (
      have-Found o d'.index r (want d') (
        subst (λ i. All (Found r (want d')) (addresses_of i o)) (sym x.index)
          (All-imp (Found r (caught d'.index r (addresses_of d.index o))) (Found r (want d')) _
            (λ a f h. want-Found d' d.addresses k.addresses a x.addresses (
              ap (λ q. wanted_key (map (address4 d'.index) q) a)
                (sym (capture-addresses o d.index r k e))
              ∙ f h))
            (caught-Found d'.index r (addresses_of d.index o)))))
