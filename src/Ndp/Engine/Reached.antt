-- ===== src/Ndp/Engine/Reached.antt =====
-- ndp/src/engine.rs: the engines that the caller's calls lead to.
use netd.Base.{
  ◌%◌, ℕ, ◌+◌, ◌-◌, ◌≤◌, ◌≡◌, sym, inl, inr, ◌&&◌, not, some, List, [], arith, ltb, leb, Bool-cases,
  is_some, done, length, All, length-drop, filter, All-each, All-map,
}
use netd.Base.Rounds.{>>=-eq-done}
use netd.Base.Bytes.{u32_mod}
use netd.Base.Time.{Instant}
use mathlib.Core.Path.{subst}
use netd.Wire6.{Ipv6Addr}
use netd.Ndp.Packet.{RouterAdvert}
use netd.Ndp.Packet.Bounds.{decode-cases}
use netd.Ndp.Engine.{
  Config, Action, Temp, Engine, solicit_interval, max_solicit_interval, max_temps,
  solicits_before_backoff, new,
}
use netd.Ndp.Engine.Lifetimes.{
  is_empty, solicit_again, regenerate, regenerate_all, newest, with_newest, drop_expired, cut_temps,
  expire,
}
use netd.Ndp.Engine.Observed.{view, view_eq}
use netd.Ndp.Engine.Handlers.{
  emit_if_changed, is_due, send_solicit, solicit_if_due, tick, start, receive_prefixes, note_router,
  note_rdnss, note_dnssl, take_advert, receive,
}
use netd.Ndp.Engine.Current.{expire-IsCurrent}
use netd.Ndp.Engine.Deadline.{
  IsPaced, HasDeadline, current-HasDeadline, solicit_if_due_lem, emit-HasDeadline,
}
use netd.Ndp.Engine.Same.{Same-trans, regenerate_all-Same, receive_prefixes-Same, note_router-Same}

-- At most four temporary addresses for each prefix.
abbrev pub HasFewTemps : Engine → Type 0
HasFewTemps e = All (λ x. length x.1.temps ≤ max_temps) e.prefixes

abbrev pub IsKept : Engine → Type 0
IsKept e = IsPaced e × HasFewTemps e

drop_expired-IsPaced : (now : Instant) (e : Engine) → IsPaced e → IsPaced (drop_expired now e)
unfolding drop_expired solicit_again
drop_expired-IsPaced now e h =
    elim (Bool-cases (
      is_empty (filter (λ (x : Ipv6Addr × Instant). ltb now x.1) e.routers)
      && not (is_some e.solicit_at))) [ inl c ↦ rw c (omega arith, omega arith) | inr c ↦ rw c h ]

newest-bound : (ts : List Temp) → length (newest ts) ≤ max_temps
newest-bound ts = omega (arith, length-drop (length ts - max_temps) ts)

cut_temps-HasFewTemps : (e : Engine) → HasFewTemps (cut_temps e)
cut_temps-HasFewTemps e =
    All-map (λ x. length x.1.temps ≤ max_temps) (λ x. (x.0, with_newest x.1)) e.prefixes
      (All-each (λ x. length (newest x.1.temps) ≤ max_temps) e.prefixes
        (λ x. newest-bound x.1.temps))

expire-IsKept :
    (rounds : ℕ) (now : Instant) (e e' : Engine)
    → expire rounds now e ≡ done e'
    → IsPaced e
    → IsKept e'
unfolding expire
expire-IsKept rounds now e e' h p =
    let d = drop_expired now e in
    let (r, ran, rest) =
      >>=-eq-done (regenerate_all rounds now (regenerate now d.config d.prefixes) d) _ h in
    let same = regenerate_all-Same rounds now (regenerate now d.config d.prefixes) d r ran in
    let last : cut_temps r ≡ e' = cc rest in
    subst IsKept last (
      subst (λ i. (solicit_interval ≤ i) × (i ≤ max_solicit_interval)) (sym same.0)
          (drop_expired-IsPaced now e p),
      cut_temps-HasFewTemps r,
    )

send_solicit-IsKept : (now : Instant) (e : Engine) → IsKept e → IsKept (send_solicit now e)
unfolding send_solicit
send_solicit-IsKept now e h =
    elim (Bool-cases (leb solicits_before_backoff ((e.solicits + 1) % u32_mod))) [
      | inl b ↦ rw b ((omega (arith, h), omega arith), h.1)
      | inr b ↦ rw b h
    ]

solicit_if_due-IsKept : (now : Instant) (e : Engine) → IsKept e → IsKept (solicit_if_due now e).0
unfolding solicit_if_due
solicit_if_due-IsKept now e h = elim (Bool-cases (is_due e.solicit_at now)) [
  | inl b ↦ rw b (send_solicit-IsKept now e h)
  | inr b ↦ rw b h
]

emit-IsKept :
    (now : Instant) (e : Engine) (actions : List Action)
    → IsKept e
    → IsKept (emit_if_changed now e actions).0
unfolding emit_if_changed
emit-IsKept now e actions h = elim (Bool-cases (view_eq (view now e) e.last_view)) [
  | inl v ↦ rw v h
  | inr v ↦ rw v h
]

-- What a finished call of `tick` did.
pub tick-expired :
    (rounds : ℕ) (now : Instant) (e : Engine) (r : Engine × List Action)
    → tick rounds now e ≡ done r
    → (x : Engine) × (expire rounds now e ≡ done x)
      × (emit_if_changed now (solicit_if_due now x).0 (solicit_if_due now x).1 ≡ r)
unfolding tick
tick-expired rounds now e r h =
    let (x, ran, rest) = >>=-eq-done (expire rounds now e) _ h in (x, ran, cc rest)

tick-IsKept :
    (rounds : ℕ) (now : Instant) (e : Engine) (r : Engine × List Action)
    → tick rounds now e ≡ done r
    → IsPaced e
    → IsKept r.0
tick-IsKept rounds now e r h p =
    let (x, ran, same) = tick-expired rounds now e r h in
    subst (λ (q : Engine × List Action). IsKept q.0) same
      (emit-IsKept now (solicit_if_due now x).0 (solicit_if_due now x).1
        (solicit_if_due-IsKept now x (expire-IsKept rounds now e x ran p)))

-- Where a tick of an engine with an allowed interval finishes, the engine has a deadline, and it is
-- later than the tick.
pub tick-HasDeadline :
    (rounds : ℕ) (now : Instant) (e : Engine) (r : Engine × List Action)
    → tick rounds now e ≡ done r
    → IsPaced e
    → HasDeadline now r.0
tick-HasDeadline rounds now e r h p =
    let (x, ran, same) = tick-expired rounds now e r h in
    let (current, ahead) =
      solicit_if_due_lem now x (expire-IsCurrent rounds now e x ran)
        (expire-IsKept rounds now e x ran p).0 in
    subst (λ (q : Engine × List Action). HasDeadline now q.0) same
      (emit-HasDeadline now (solicit_if_due now x).0 (solicit_if_due now x).1
        (current-HasDeadline now (solicit_if_due now x).0 current ahead))

take_advert-IsKept :
    (sha1 : List ℕ → List ℕ) (rounds : ℕ) (now : Instant) (source : Ipv6Addr) (ra : RouterAdvert)
    (e : Engine) (r : Engine × List Action)
    → take_advert sha1 rounds now source ra e ≡ done r
    → IsPaced e
    → IsKept r.0
unfolding take_advert
take_advert-IsKept sha1 rounds now source ra e r h p =
    let noted = note_router sha1 rounds now source ra e in
    let (x, ran, rest) = >>=-eq-done (receive_prefixes sha1 rounds now ra.prefixes noted) _ h in
    let lists : Engine = record x {
      rdnss = note_rdnss sha1 rounds now ra.rdnss x.rdnss;
      dnssl = note_dnssl sha1 rounds now ra.dnssl x.dnssl;
    } in
    let (y, expired, last) = >>=-eq-done (expire rounds now lists) _ rest in
    let kept =
      Same-trans e noted x (note_router-Same sha1 rounds now source ra e)
        (receive_prefixes-Same sha1 rounds now ra.prefixes noted x ran) in
    let same : emit_if_changed now y [] ≡ r = cc last in
    subst (λ (q : Engine × List Action). IsKept q.0) same
      (emit-IsKept now y [] (
        expire-IsKept rounds now lists y expired
          (subst (λ i. (solicit_interval ≤ i) × (i ≤ max_solicit_interval)) (sym kept.0) p)))

-- The engines that `new` and finished calls lead to.
pub data Reach (sha1 : List ℕ → List ℕ) (rounds : ℕ) : Engine → Type 0 where
  created : (config : Config) → Reach sha1 rounds (new config)
  started :
      (now : Instant) (e : Engine) (r : Engine × List Action)
      → Reach sha1 rounds e
      → start rounds now e ≡ done r
      → Reach sha1 rounds r.0
  ticked :
      (now : Instant) (e : Engine) (r : Engine × List Action)
      → Reach sha1 rounds e
      → tick rounds now e ≡ done r
      → Reach sha1 rounds r.0
  received :
      (now : Instant) (source : Ipv6Addr) (body : List ℕ) (e : Engine) (r : Engine × List Action)
      → Reach sha1 rounds e
      → receive sha1 rounds now source body e ≡ done r
      → Reach sha1 rounds r.0

receive-IsKept :
    (sha1 : List ℕ → List ℕ) (rounds : ℕ) (now : Instant) (source : Ipv6Addr) (body : List ℕ)
    (e : Engine) (r : Engine × List Action)
    → receive sha1 rounds now source body e ≡ done r
    → IsKept e
    → IsKept r.0
unfolding receive
receive-IsKept sha1 rounds now source body e r h k = elim (decode-cases body) [
  | inl n ↦
      let same : (e, []) ≡ r = ground (arith, h, n) in
      subst (λ (q : Engine × List Action). IsKept q.0) same k
  | inr (ra, s) ↦
      let found : take_advert sha1 rounds now source ra e ≡ done r = rw (s, receive) at h in
      take_advert-IsKept sha1 rounds now source ra e r found k.0
]

-- Every engine that finished calls lead to has a solicitation interval between four seconds and an hour
-- and at most four temporary addresses for each prefix.
pub Reach-IsKept :
    (sha1 : List ℕ → List ℕ) (rounds : ℕ) (e : Engine) → Reach sha1 rounds e → IsKept e
unfolding new start
Reach-IsKept sha1 rounds _ (created config) = ((omega arith, omega arith), tt)
Reach-IsKept sha1 rounds _ (started now e r p h) =
    tick-IsKept rounds now
      (record e { solicits = 0; solicit_interval = solicit_interval; solicit_at = some now }) r h
      (omega arith, omega arith)
Reach-IsKept sha1 rounds _ (ticked now e r p h) =
    tick-IsKept rounds now e r h (Reach-IsKept sha1 rounds e p).0
Reach-IsKept sha1 rounds _ (received now source body e r p h) =
    receive-IsKept sha1 rounds now source body e r h (Reach-IsKept sha1 rounds e p)
