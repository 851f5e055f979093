-- ===== src/Ndp/Engine/Deadline.antt =====
-- ndp/src/engine.rs: `next_deadline` behind `tick`.
use netd.Base.{
  ◌%◌, ℕ, ◌+◌, ◌*◌, ◌≤◌, ◌<◌, min, ◌≡◌, refl, sym, inl, inr, true, false, ◌&&◌, not, Option, none,
  some, List, [], ◌∷◌, arith, ltb, leb, ltb→lt, lt→ltb, Bool-cases, is_some, All, All-map, All-imp,
}
use netd.Base.Bytes.{u32_mod}
use netd.Base.Time.{Instant, Duration}
use mathlib.Core.Path.{subst}
use netd.Wire6.{Ipv6Addr}
use netd.Ndp.Engine.{
  Action, Temp, Prefix, Engine, solicit_interval, max_solicit_interval, solicits_before_backoff,
  jittered, next_random,
}
use netd.Ndp.Engine.Lifetimes.{is_empty}
use netd.Ndp.Engine.Observed.{
  consider, pending, consider_temps, consider_prefixes, consider_all, expiries, next_deadline, view,
  view_eq,
}
use netd.Ndp.Engine.Handlers.{emit_if_changed, is_due, send_solicit, solicit_if_due}
use netd.Ndp.Engine.Current.{Lives, TempLives, PrefixLives, IsCurrent}

-- A deadline that is after `now`, if there is one.
abbrev Ahead : Instant → Option Instant → Type 0
Ahead now none = Unit
Ahead now (some t) = now < t

consider-Ahead :
    (now : Instant) (d t : Option Instant) → Ahead now d → Ahead now t → Ahead now (consider d t)
consider-Ahead now d none h k = h
consider-Ahead now none (some t) h k = k
consider-Ahead now (some d) (some t) h k = omega arith

Lives-Ahead : (now : Instant) (t : Option Instant) → Lives now t → Ahead now t
Lives-Ahead now none h = tt
Lives-Ahead now (some t) h = ltb→lt now t h

pending-Ahead : (now : Instant) (t : Option Instant) → Ahead now (pending (some now) t)
pending-Ahead now none = tt
pending-Ahead now (some t) = elim (Bool-cases (ltb now t)) [
  | inl h ↦ rw h (ltb→lt now t h)
  | inr h ↦ rw h tt
]

consider_temps-Ahead :
    (now : Instant) (ts : List Temp) (d : Option Instant)
    → All (TempLives now) ts
    → Ahead now d
    → Ahead now (consider_temps (some now) ts d)
unfolding consider_temps
consider_temps-Ahead now [] d l h = h
consider_temps-Ahead now (t ∷ ts) d l h = consider_temps-Ahead now ts _ l.1 (
    consider-Ahead now (consider d (pending (some now) (some t.preferred_until)))
      (some t.valid_until)
      (consider-Ahead now d (pending (some now) (some t.preferred_until)) h
        (pending-Ahead now (some t.preferred_until)))
      l.0)

consider_prefixes-Ahead :
    (now : Instant) (m : List ((Ipv6Addr × ℕ) × Prefix)) (d : Option Instant)
    → All (λ x. PrefixLives now x.1) m
    → Ahead now d
    → Ahead now (consider_prefixes (some now) m d)
unfolding consider_prefixes
consider_prefixes-Ahead now [] d l h = h
consider_prefixes-Ahead now ((key, p) ∷ m) d l h = consider_prefixes-Ahead now m _ l.1 (
    consider_temps-Ahead now p.temps _ l.0.1 (
      consider-Ahead now (consider d p.valid_until) (pending (some now) p.preferred_until)
        (consider-Ahead now d p.valid_until h (Lives-Ahead now p.valid_until l.0.0))
        (pending-Ahead now p.preferred_until)))

consider_all-Ahead :
    {K : Type 0} (now : Instant) (m : List (K × Option Instant)) (d : Option Instant)
    → All (λ x. Lives now x.1) m
    → Ahead now d
    → Ahead now (consider_all m d)
unfolding consider_all
consider_all-Ahead now [] d l h = h
consider_all-Ahead now ((k, t) ∷ m) d l h =
    consider_all-Ahead now m (consider d t) l.1 (consider-Ahead now d t h (Lives-Ahead now t l.0))

-- Considering more takes no deadline away.
consider-some : (d t : Option Instant) → is_some d ≡ true → is_some (consider d t) ≡ true
consider-some d none h = h
consider-some none (some t) h = refl
consider-some (some d) (some t) h = refl

consider_temps-some :
    (x : Option Instant) (ts : List Temp) (d : Option Instant)
    → is_some d ≡ true
    → is_some (consider_temps x ts d) ≡ true
unfolding consider_temps
consider_temps-some x [] d h = h
consider_temps-some x (t ∷ ts) d h = consider_temps-some x ts _ (
    consider-some (consider d (pending x (some t.preferred_until))) (some t.valid_until)
      (consider-some d (pending x (some t.preferred_until)) h))

consider_prefixes-some :
    (x : Option Instant) (m : List ((Ipv6Addr × ℕ) × Prefix)) (d : Option Instant)
    → is_some d ≡ true
    → is_some (consider_prefixes x m d) ≡ true
unfolding consider_prefixes
consider_prefixes-some x [] d h = h
consider_prefixes-some x ((key, p) ∷ m) d h = consider_prefixes-some x m _ (
    consider_temps-some x p.temps _ (
      consider-some (consider d p.valid_until) (pending x p.preferred_until)
        (consider-some d p.valid_until h)))

consider_all-some :
    {K : Type 0} (m : List (K × Option Instant)) (d : Option Instant)
    → is_some d ≡ true
    → is_some (consider_all m d) ≡ true
unfolding consider_all
consider_all-some [] d h = h
consider_all-some ((k, t) ∷ m) d h = consider_all-some m (consider d t) (consider-some d t h)

-- A router, or a solicitation, is a deadline.
first_deadline :
    (m : List (Ipv6Addr × Instant)) (s : Option Instant)
    → is_empty m && not (is_some s) ≡ false
    → is_some (consider_all (expiries m) s) ≡ true
unfolding consider_all
first_deadline [] s h = ground arith
first_deadline ((k, t) ∷ m) none h = consider_all-some (expiries m) (some t) refl
first_deadline ((k, t) ∷ m) (some s) h = consider_all-some (expiries m) (some (min s t)) refl

-- A deadline is set, and after `now`.
abbrev pub HasDeadline : Instant → Engine → Type 0
HasDeadline now e = (t : Instant) × (next_deadline e ≡ some t) × (now < t)

some-Ahead :
    (now : Instant) (d : Option Instant)
    → is_some d ≡ true
    → Ahead now d
    → (t : Instant) × (d ≡ some t) × (now < t)
some-Ahead now none h a = cc
some-Ahead now (some t) h a = (t, refl, a)

pub current-HasDeadline :
    (now : Instant) (e : Engine) → IsCurrent now e → Ahead now e.solicit_at → HasDeadline now e
unfolding next_deadline
current-HasDeadline now e c a =
    let first = consider_all (expiries e.routers) e.solicit_at in
    let second = consider_prefixes e.expired_at e.prefixes first in
    let third = consider_all e.rdnss second in
    let routers =
      All-map (λ x. Lives now x.1) (λ x. (x.0, some x.1)) e.routers
        (All-imp (λ x. now < x.1) (λ x. ltb now x.1 ≡ true) e.routers (λ x h. lt→ltb now x.1 h)
          c.routers) in
    let second_ahead : Ahead now second =
      subst (λ x. Ahead now (consider_prefixes x e.prefixes first)) (sym c.expired)
        (consider_prefixes-Ahead now e.prefixes first c.prefixes
          (consider_all-Ahead now (expiries e.routers) e.solicit_at routers a)) in
    some-Ahead now (consider_all e.dnssl third)
      (consider_all-some e.dnssl third (
        consider_all-some e.rdnss second (
          consider_prefixes-some e.expired_at e.prefixes first
            (first_deadline e.routers e.solicit_at c.seeks))))
      (consider_all-Ahead now e.dnssl third c.dnssl
        (consider_all-Ahead now e.rdnss second c.rdnss second_ahead))

-- The solicitation interval is between four seconds and an hour.
abbrev pub IsPaced : Engine → Type 0
IsPaced e = (solicit_interval ≤ e.solicit_interval) × (e.solicit_interval ≤ max_solicit_interval)

jittered-pos : (d : Duration) (r : ℕ) → solicit_interval ≤ d → 0 < jittered d r
jittered-pos d r h = omega arith

send_solicit-Ahead :
    (now : Instant) (e : Engine) → IsPaced e → Ahead now (send_solicit now e).solicit_at
unfolding send_solicit
send_solicit-Ahead now e p =
    elim (Bool-cases (leb solicits_before_backoff ((e.solicits + 1) % u32_mod))) [
      | inl h ↦ rw h (
          omega (
            arith,
            jittered-pos (min (e.solicit_interval * 2) max_solicit_interval) (next_random e.rng)
                (omega (arith, p)),
          ))
      | inr h ↦ rw h (omega (arith, jittered-pos e.solicit_interval (next_random e.rng) p.0))
    ]

send_solicit-IsCurrent :
    (now : Instant) (e : Engine) → IsCurrent now e → IsCurrent now (send_solicit now e)
unfolding send_solicit
send_solicit-IsCurrent now e c = record {
  expired = c.expired;
  routers = c.routers;
  prefixes = c.prefixes;
  rdnss = c.rdnss;
  dnssl = c.dnssl;
  seeks = ground arith;
}

not_due : (now : Instant) (o : Option Instant) → is_due o now ≡ false → Ahead now o
not_due now none h = tt
not_due now (some t) h = ground arith

pub solicit_if_due_lem :
    (now : Instant) (e : Engine)
    → IsCurrent now e
    → IsPaced e
    → IsCurrent now (solicit_if_due now e).0 × Ahead now (solicit_if_due now e).0.solicit_at
unfolding solicit_if_due
solicit_if_due_lem now e c p = elim (Bool-cases (is_due e.solicit_at now)) [
  | inl h ↦ rw h (send_solicit-IsCurrent now e c, send_solicit-Ahead now e p)
  | inr h ↦ rw h (c, not_due now e.solicit_at h)
]

-- The last view is no part of a deadline.
pub emit-HasDeadline :
    (now : Instant) (e : Engine) (actions : List Action)
    → HasDeadline now e
    → HasDeadline now (emit_if_changed now e actions).0
unfolding emit_if_changed next_deadline
emit-HasDeadline now e actions h = elim (Bool-cases (view_eq (view now e) e.last_view)) [
  | inl v ↦ rw v h
  | inr v ↦ rw v h
]
