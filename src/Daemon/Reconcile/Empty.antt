-- ===== src/Daemon/Reconcile/Empty.antt =====
-- netd/src/reconcile.rs: when a plan is empty, by the sets that it compares.
use netd.Base.{
  filter, ℕ, ◌<◌, ◌≡◌, refl, sym, ◌⊎◌, ◌↔◌, inl, inr, Bool, true, false, ◌&&◌, not, Option, none,
  some, List, [], ◌∷◌, ◌++◌, map, arith, leb, ◌==◌, if◌then◌else◌, Bool-cases, All,
}
use mathlib.Core.Path.{subst}
use netd.Daemon.Model.{Link, Observed, link_of, address_key, route_key}
use netd.Daemon.BtreeSet.{contains}
use netd.Daemon.Reconcile.{
  Desired, Op, link_up, link_down, mtu, add_address, del_address, add_route, del_route, want, have,
  wanted_key, plan_addresses, want_routes, have_routes, plan_routes, plan_mtu, plan_on, plan,
  plan-link,
}

-- An MTU that is not desired, is there, or is below the least that IPv4 allows.
abbrev pub MtuSettled : Option ℕ → Link → Type 0
MtuSettled none link = Unit
MtuSettled (some m) link = (m ≡ link.mtu) ⊎ (m < 68)

-- Nothing is left to do, in terms of the sets that `plan` compares.
pub record NothingLeft (o : Observed) (d : Desired) (link : Link) : Type 0 where
  pub up : link.up ≡ d.up
  pub mtu_as_wanted : MtuSettled d.mtu link
  pub no_extra : All (λ a. wanted_key (want d) a ≡ true) (have o d.index)
  pub no_missing : All (λ a. contains address_key (have o d.index) a ≡ true) (want d)
  pub no_extra_route :
      All (λ r. contains route_key (want_routes d) r ≡ true) (have_routes o d.index)
  pub no_missing_route :
      All (λ r. contains route_key (have_routes o d.index) r ≡ true) (want_routes d)

none_left :
    {A : Type 0} (p : A → Bool) (f : A → Op) (xs : List A)
    → (map f (filter (λ x. not (p x)) xs) ≡ []) ↔ All (λ x. p x ≡ true) xs
unfolding filter
none_left p f [] = (λ h. tt, λ h. refl)
none_left p f (x ∷ xs) = elim (Bool-cases (p x)) [
  | inl e ↦ rw (e, filter) (λ h. (refl, (none_left p f xs).0 h), λ h. (none_left p f xs).1 h.1)
  | inr e ↦ rw (e, filter) (λ h. cc, λ h. cc)
]

both_empty : (xs ys : List Op) → (xs ++ ys ≡ []) ↔ ((xs ≡ []) × (ys ≡ []))
both_empty [] ys = (λ h. (refl, h), λ h. h.1)
both_empty (x ∷ xs) ys = (λ h. cc, λ h. cc)

step_empty : (b : Bool) (op : Op) → ((if b then op ∷ [] else []) ≡ []) ↔ (b ≡ false)
step_empty true op = (λ h. cc, λ h. cc)
step_empty false op = (λ h. refl, λ h. refl)

mtu_empty :
    (index : ℕ) (m : Option ℕ) (link : Link) → (plan_mtu index m link ≡ []) ↔ MtuSettled m link
mtu_empty index none link = (λ h. tt, λ h. refl)
mtu_empty index (some m) link =
    let s = step_empty (not (m == link.mtu) && leb 68 m) (mtu index m) in
    (λ h. ground (arith, s.0 h), λ h. s.1 (ground (arith, h)))

addresses_empty :
    (o : Observed) (d : Desired)
    → (plan_addresses o d ≡ []) ↔ (
        All (λ a. wanted_key (want d) a ≡ true) (have o d.index)
        × All (λ a. contains address_key (have o d.index) a ≡ true) (want d))
unfolding plan_addresses
addresses_empty o d =
    let s = both_empty _ _ in
    let gone = none_left (wanted_key (want d)) del_address (have o d.index) in
    let fresh =
      none_left (contains address_key (have o d.index)) (λ a. add_address a d.broadcast) (want d) in
    (λ h. (gone.0 (s.0 h).0, fresh.0 (s.0 h).1), λ h. s.1 (gone.1 h.0, fresh.1 h.1))

routes_empty :
    (o : Observed) (d : Desired)
    → (plan_routes o d ≡ []) ↔ (
        All (λ r. contains route_key (want_routes d) r ≡ true) (have_routes o d.index)
        × All (λ r. contains route_key (have_routes o d.index) r ≡ true) (want_routes d))
unfolding plan_routes
routes_empty o d =
    let s = both_empty _ _ in
    let gone = none_left (contains route_key (want_routes d)) del_route (have_routes o d.index) in
    let fresh = none_left (contains route_key (have_routes o d.index)) add_route (want_routes d) in
    (λ h. (gone.0 (s.0 h).0, fresh.0 (s.0 h).1), λ h. s.1 (gone.1 h.0, fresh.1 h.1))

pub plan-NothingLeft :
    (o : Observed) (d : Desired) (link : Link)
    → link_of d.index o.links ≡ some link
    → (plan o d ≡ []) ↔ NothingLeft o d link
plan-NothingLeft o d link e =
    subst (λ ops. (ops ≡ []) ↔ NothingLeft o d link) (sym (plan-link o d link e)) (to, from)
  where
    raise :
        ((if d.up && not link.up then link_up d.index ∷ [] else []) ≡ [])
        ↔ ((d.up && not link.up) ≡ false)
    raise = step_empty (d.up && not link.up) (link_up d.index)

    lower :
        ((if not d.up && link.up then link_down d.index ∷ [] else []) ≡ [])
        ↔ ((not d.up && link.up) ≡ false)
    lower = step_empty (not d.up && link.up) (link_down d.index)

    to : plan_on o d link ≡ [] → NothingLeft o d link
    to h =
        let (a, h1) = (both_empty _ _).0 h in
        let (b, h2) = (both_empty _ _).0 h1 in
        let (c, h3) = (both_empty _ _).0 h2 in
        let (r, l) = (both_empty _ _).0 h3 in
        record {
          up = ground (arith, raise.0 a, lower.0 l);
          mtu_as_wanted = (mtu_empty d.index d.mtu link).0 b;
          no_extra = ((addresses_empty o d).0 c).0;
          no_missing = ((addresses_empty o d).0 c).1;
          no_extra_route = ((routes_empty o d).0 r).0;
          no_missing_route = ((routes_empty o d).0 r).1;
        }

    from : NothingLeft o d link → plan_on o d link ≡ []
    from s = (both_empty _ _).1 (
      raise.1 (ground (arith, s.up)),
      (both_empty _ _).1 (
        (mtu_empty d.index d.mtu link).1 s.mtu_as_wanted,
        (both_empty _ _).1 (
          (addresses_empty o d).1 (s.no_extra, s.no_missing),
          (both_empty _ _).1 (
            (routes_empty o d).1 (s.no_extra_route, s.no_missing_route),
            lower.1 (ground (arith, s.up)),
          ),
        ),
      ),
    )
