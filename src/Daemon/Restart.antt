-- ===== src/Daemon/Restart.antt =====
-- netd/src/restart.rs: IPv4 configuration kept while the first INIT-REBOOT is being answered.
pub mod Kept
pub mod Caught
pub mod Spared
use netd.Base.{
  filter, ℕ, zero, suc, ◌+◌, ◌-◌, ◌*◌, ◌/◌, ◌%◌, ◌^◌, ◌≤◌, ◌<◌, min, max, bit_and, bit_or, bit_xor,
  ◌≡◌, refl, sym, ap, ◌∙◌, ◌≢◌, ◌⊎◌, ◌↔◌, inl, inr, Bool, true, false, ◌&&◌, ◌||◌, not, Option,
  none, some, List, [], ◌∷◌, ◌++◌, map, arith, ltb, leb, ◌==◌, if◌then◌else◌, ltb→lt, lt→ltb,
  leb→le, le→leb, ==_iff, Bool-cases, Option-cases, get_or_else, is_some, or_else, keep_if,
  map_option, ◌>>=◌, ◌>>◌, guard, Loop, done, stuck, run_or, run_or-done, length, get_elem?, get_or,
  take, drop, replicate, All, All-append, All-take, All-drop, All-replicate, take-append,
  drop-append, length-append, length-take, length-drop, length-replicate, length-map,
}
use netd.Daemon.Model.{
  IpAddr, Address, Route, Observed, rtprot_netd, is_default, is_v4, addresses_of, routes_of,
}
use netd.Daemon.Reconcile.{Desired, same_ip}

pub record Ipv4 : Type 0 where
  pub addresses : List (ℕ × ℕ)
  pub routes : List Route

-- `if addresses.is_empty() { return None; }` and what follows.
abbrev pub kept : List (ℕ × ℕ) → List Route → Option Ipv4
kept [] routes = none
kept (a ∷ as') routes = some (record { addresses = a ∷ as'; routes = routes })

unfoldable pub capture : Observed → ℕ → Option ℕ → Option Ipv4
capture o index wanted = do
  requested ← wanted
  kept
      (map (λ a. (requested, a.prefix))
        (filter (λ a. same_ip a.address (IpAddr.v4 requested)) (addresses_of index o)))
      (filter (λ r. is_v4 r && r.protocol == rtprot_netd) (routes_of index o))

-- `get_or_insert`
abbrev pub get_or_insert : {A : Type 0} → Option A → A → Option A
get_or_insert none x = some x
get_or_insert (some y) x = some y

-- One round of the loop over the routes, on their two addresses.
abbrev pub preserve_route : IpAddr → Option IpAddr → Route → ℕ → Desired → Desired
preserve_route (IpAddr.v4 destination) (some (IpAddr.v4 gateway)) r metric d =
    if is_default r
    then record d { default_route = get_or_insert d.default_route (gateway, metric) }
    else record d { routes = d.routes ++ ((destination, r.prefix, gateway, metric) ∷ []) }
preserve_route _ _ r metric d = d

unfoldable pub preserve_routes : List Route → ℕ → Desired → Desired
preserve_routes [] metric d = d
preserve_routes (r ∷ rs) metric d =
    preserve_routes rs metric (preserve_route r.destination r.gateway r metric d)

unfoldable pub preserve : Ipv4 → Bool → ℕ → Desired → Desired
preserve k offered_routes metric d =
    let d1 = record d { addresses = d.addresses ++ k.addresses } in
    if not offered_routes then d1 else preserve_routes k.routes metric d1
