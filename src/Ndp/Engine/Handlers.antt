-- ===== src/Ndp/Engine/Handlers.antt =====
-- ndp/src/engine.rs: what the caller calls: `start`, `receive` and `tick`.
use netd.Base.{
  ◌%◌, ℕ, ◌+◌, ◌-◌, ◌*◌, min, Bool, false, ◌&&◌, ◌||◌, not, Option, none, some, List, [], ◌∷◌, ◌++◌,
  ltb, leb, ◌==◌, if◌then◌else◌, or_else, Loop, done, stuck,
}
use netd.Base.Rounds.{◌>>=◌}
use netd.Base.BtreeMap.{get, insert, remove, update}
use netd.Base.Bytes.{u32_mod}
use netd.Base.Time.{Instant, from_secs}
use netd.Wire6.{Ipv6Addr}
use netd.Ndp.Packet as Packet
use netd.Ndp.Packet.{PrefixInfo, Rdnss, Dnssl, RouterAdvert, decode}
use netd.Ndp.Engine.{
  Action, changed, Prefix, Engine, address_key, prefix_key, name_key, next_random, jittered, until,
  stable_address, solicit_interval, solicits_before_backoff, max_solicit_interval, two_hours,
}
use netd.Ndp.Engine.Draw.{new_temp}
use netd.Ndp.Engine.Lifetimes.{expire}
use netd.Ndp.Engine.Observed.{view, view_eq}

unfoldable pub emit_if_changed : Instant → Engine → List Action → Engine × List Action
emit_if_changed now e actions =
    if view_eq (view now e) e.last_view
    then (e, actions)
    else (record e { last_view = view now e }, actions ++ (changed ∷ []))

abbrev pub is_due : Option Instant → Instant → Bool
is_due none now = false
is_due (some due) now = leb due now

-- The solicitation that is due.
unfoldable pub send_solicit : Instant → Engine → Engine
send_solicit now e =
    let solicits = (e.solicits + 1) % u32_mod in
    let interval =
      if leb solicits_before_backoff solicits
      then min (e.solicit_interval * 2) max_solicit_interval
      else e.solicit_interval in
    let r = next_random e.rng in
    record e {
      solicits = solicits;
      solicit_interval = interval;
      rng = r;
      solicit_at = some (now + jittered interval r);
    }

unfoldable pub solicit_if_due : Instant → Engine → Engine × List Action
solicit_if_due now e =
    if is_due e.solicit_at now
    then (send_solicit now e, Action.solicit (Packet.solicit e.config.mac) ∷ [])
    else (e, [])

unfoldable pub tick : ℕ → Instant → Engine → Loop (Engine × List Action)
tick rounds now e0 = do
  e ← expire rounds now e0
  let (e', actions) = solicit_if_due now e
  done (emit_if_changed now e' actions)

unfoldable pub start : ℕ → Instant → Engine → Loop (Engine × List Action)
start rounds now e =
    tick rounds now
      (record e { solicits = 0; solicit_interval = solicit_interval; solicit_at = some now })

-- RFC 4862 §5.5.3(e): the end of the valid lifetime, given the one before and the one received.
unfoldable pub extended : Instant → ℕ → Option Instant → Option Instant
extended now valid none =
    if ltb two_hours (from_secs valid) then until now valid else some (now + two_hours)
extended now valid (some t) =
    let remaining = t - now in
    if ltb two_hours (from_secs valid) || ltb remaining (from_secs valid)
    then until now valid
    else if leb remaining two_hours
    then some (now + remaining)
    else some (now + two_hours)

abbrev pub refreshed : Instant → PrefixInfo → Prefix → Prefix
refreshed now info p = record p {
  on_link = info.on_link;
  preferred_until = until now info.preferred;
  valid_until = extended now info.valid p.valid_until;
}

module _ (sha1 : List ℕ → List ℕ) (rounds : ℕ) where
  -- A prefix that was not known before.
  unfoldable pub add_prefix : Instant → PrefixInfo → Engine → Loop Engine
  add_prefix now info e =
      let p : Prefix = record {
        on_link = info.on_link;
        valid_until = until now info.valid;
        preferred_until = until now info.preferred;
        stable = stable_address sha1 e.config info.prefix;
        temps = [];
      } in
      let key : Ipv6Addr × ℕ = (info.prefix, info.length) in
      if e.config.temporary && ltb 0 info.preferred
      then (do
        (temp, rng) ← new_temp rounds now info.prefix p e.rng
        let q : Prefix = record p { temps = temp ∷ [] }
        let e' : Engine = record e { rng = rng; prefixes = insert prefix_key key q e.prefixes }
        done e')
      else done (record e { prefixes = insert prefix_key key p e.prefixes })

  unfoldable pub receive_prefix : Instant → PrefixInfo → Engine → Loop Engine
  receive_prefix now info e =
      if not info.autonomous || (not (info.length == 64) || ltb info.valid info.preferred)
      then done e
      else elim (get prefix_key (info.prefix, info.length) e.prefixes) [
        | some p ↦ done (record e {
          prefixes = update prefix_key (info.prefix, info.length) (refreshed now info) e.prefixes;
        })
        | none ↦ if ltb 0 info.valid then add_prefix now info e else done e
      ]

  unfoldable pub receive_prefixes : Instant → List PrefixInfo → Engine → Loop Engine
  receive_prefixes now [] e = done e
  receive_prefixes now (p ∷ ps) e = do e' ← receive_prefix now p e; receive_prefixes now ps e'

  -- One server, or one domain, and its lifetime in seconds.
  abbrev pub noted :
      {K : Type 0}
      → (K → List ℕ)
      → Instant
      → ℕ
      → K
      → List (K × Option Instant)
      → List (K × Option Instant)
  noted key now lifetime k m =
      if lifetime == 0 then remove key k m else insert key k (until now lifetime) m

  unfoldable pub note_all :
      {K : Type 0}
      → (K → List ℕ)
      → Instant
      → ℕ
      → List K
      → List (K × Option Instant)
      → List (K × Option Instant)
  note_all key now lifetime [] m = m
  note_all key now lifetime (k ∷ ks) m = note_all key now lifetime ks (noted key now lifetime k m)

  unfoldable pub note_rdnss :
      Instant → List Rdnss → List (Ipv6Addr × Option Instant) → List (Ipv6Addr × Option Instant)
  note_rdnss now [] m = m
  note_rdnss now (r ∷ rs) m = note_rdnss now rs (note_all address_key now r.lifetime r.servers m)

  unfoldable pub note_dnssl :
      Instant → List Dnssl → List (List ℕ × Option Instant) → List (List ℕ × Option Instant)
  note_dnssl now [] m = m
  note_dnssl now (d ∷ ds) m = note_dnssl now ds (note_all name_key now d.lifetime d.domains m)

  -- What the header says of the router, and the flags and the MTU.
  unfoldable pub note_router : Instant → Ipv6Addr → RouterAdvert → Engine → Engine
  note_router now source ra e0 =
      let e =
        if ltb 0 ra.router_lifetime
        then record e0 {
          routers = insert address_key source (now + from_secs ra.router_lifetime) e0.routers;
          solicit_at = none;
        }
        else record e0 { routers = remove address_key source e0.routers } in
      record e {
        dhcp6_wanted = e.dhcp6_wanted || (ra.managed || ra.other_config);
        mtu = or_else ra.mtu e.mtu;
      }

  unfoldable pub take_advert :
      Instant → Ipv6Addr → RouterAdvert → Engine → Loop (Engine × List Action)
  take_advert now source ra e0 = do
    e1 ← receive_prefixes now ra.prefixes (note_router now source ra e0)
    let e2 = record e1 {
      rdnss = note_rdnss now ra.rdnss e1.rdnss;
      dnssl = note_dnssl now ra.dnssl e1.dnssl;
    }
    e3 ← expire rounds now e2
    done (emit_if_changed now e3 [])

  unfoldable pub receive : Instant → Ipv6Addr → List ℕ → Engine → Loop (Engine × List Action)
  receive now source body e = elim (decode body) [
    | stuck ↦ stuck
    | done none ↦ done (e, [])
    | done (some ra) ↦ take_advert now source ra e
  ]
