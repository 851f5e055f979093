-- ===== src/Dhcp4/Client/Expiry.antt =====
-- The deadlines of dhcp4/src/client.rs and the expiry of the lease.
use netd.Base.{
  ℕ, ◌≤◌, ◌<◌, min, ◌≡◌, refl, ap, ◌∙◌, ◌≢◌, ◌⊎◌, inl, inr, true, none, some, List, [], arith,
  le→leb, Option-cases, is_some,
}
use mathlib.Core.Path.{subst}
use netd.Base.Time.{Instant}
use netd.Dhcp4.Lease.{Lease}
use netd.Dhcp4.Lease.Timers.{IsUsable}
use netd.Dhcp4.Client.{Action, State, Client, at, next_random, schedule_backoff}
use netd.Dhcp4.Client.Send.{
  send_discover, enter_selecting, send_request_for_offer, send_reboot_request, renew_from,
  send_renewal, enter_renewing, enter_rebinding, retransmit_in, retransmit,
}
use netd.Dhcp4.Client.Handlers.{
  holds_lease, boundary, next_deadline, go_on, boundary_in, tick_lease, tick_retransmit, tick,
}
use netd.Dhcp4.Client.Valid.{IsValid, Usable}

-- The lease that the client holds, with the time that it was obtained at.
pub record Holds (c : Client) (l : Lease) (b : Instant) : Type 0 where
  pub lease : c.lease ≡ some l
  pub date : c.bound_at ≡ some b

tick_retransmit_later :
    (now d : Instant) (c : Client)
    → c.retransmit_at ≡ some d
    → now < d
    → tick_retransmit now c ≡ (c, [])
unfolding tick_retransmit
tick_retransmit_later now d c e h = rw (e, tick_retransmit) (ground arith)

-- Entering a renewal puts the next transmission a minute away at least.
module _ (now : Instant) (c : Client) (l : Lease) (b : Instant) (h : Holds c l b) where
  enter_renewing_lem :
      let c1 = (enter_renewing now c).0 in
      (c1.state ≡ State.renewing)
      × (c1.lease ≡ some l)
      × (c1.bound_at ≡ some b)
      × ((d : Instant) × (c1.retransmit_at ≡ some d) × (now < d))
  unfolding enter_renewing send_renewal renew_from next_random
  enter_renewing_lem = rw (h.lease, h.date) (refl, h.lease, h.date, (_, refl, omega arith))

  enter_rebinding_lem :
      let c1 = (enter_rebinding now c).0 in
      (c1.state ≡ State.rebinding)
      × (c1.lease ≡ some l)
      × (c1.bound_at ≡ some b)
      × ((d : Instant) × (c1.retransmit_at ≡ some d) × (now < d))
  unfolding enter_rebinding send_renewal renew_from next_random
  enter_rebinding_lem = rw (h.lease, h.date) (refl, h.lease, h.date, (_, refl, omega arith))

tick_lease_at :
    (now : Instant) (c : Client) (l : Lease) (b : Instant)
    → Holds c l b
    → tick_lease now c ≡ boundary_in c.state now c l b
unfolding tick_lease
tick_lease_at now c l b h = ground arith

-- `tick` after a boundary that leaves the next transmission for later.
tick_at :
    (now d : Instant) (c c1 : Client) (as' : List Action)
    → tick_lease now c ≡ go_on c1 as'
    → c1.retransmit_at ≡ some d
    → now < d
    → (tick now c).0 ≡ c1
unfolding tick
tick_at now d c c1 as' e r h = rw (e, tick_retransmit_later now d c1 r h)

-- A tick that reaches a boundary enters the next state, and sends nothing again at once.
module _ (now : Instant) (c : Client) (l : Lease) (b : Instant) (h : Holds c l b) where
  bound_due :
      c.state ≡ State.bound
      → at b l.t1 ≤ now
      → tick_lease now c ≡ go_on (enter_renewing now c).0 (enter_renewing now c).1
  unfolding boundary_in
  bound_due s due =
      tick_lease_at now c l b h ∙ ap (λ x. boundary_in x now c l b) s ∙ rw (le→leb _ _ due)

  renewing_due :
      c.state ≡ State.renewing
      → at b l.t2 ≤ now
      → tick_lease now c ≡ go_on (enter_rebinding now c).0 (enter_rebinding now c).1
  unfolding boundary_in
  renewing_due s due =
      tick_lease_at now c l b h ∙ ap (λ x. boundary_in x now c l b) s ∙ rw (le→leb _ _ due)

  tick_bound :
      c.state ≡ State.bound
      → at b l.t1 ≤ now
      → ((tick now c).0.state ≡ State.renewing) × Holds (tick now c).0 l b
  tick_bound s due =
      let (st, le, da, (d, re, later)) = enter_renewing_lem now c l b h in
      rw
        (tick_at now d c (enter_renewing now c).0 (enter_renewing now c).1 (bound_due s due) re
          later)
        (st, record { lease = le; date = da })

  tick_renewing :
      c.state ≡ State.renewing
      → at b l.t2 ≤ now
      → ((tick now c).0.state ≡ State.rebinding) × Holds (tick now c).0 l b
  tick_renewing s due =
      let (st, le, da, (d, re, later)) = enter_rebinding_lem now c l b h in
      rw
        (tick_at now d c (enter_rebinding now c).0 (enter_rebinding now c).1 (renewing_due s due) re
          later)
        (st, record { lease = le; date = da })

  tick_rebinding : c.state ≡ State.rebinding → at b l.lease_time ≤ now → (tick now c).0.lease ≡ none
  unfolding tick tick_lease boundary_in enter_selecting send_discover schedule_backoff next_random
  tick_rebinding s due = rw (h.lease, h.date, s, le→leb _ _ due)

-- A client without a lease gets none from a tick.
module _ (now : Instant) (c : Client) (e : c.lease ≡ none) where
  retransmit_in_vacant : (s : State) → (retransmit_in s now c).0.lease ≡ none
  unfolding retransmit_in send_request_for_offer send_reboot_request send_renewal renew_from
      enter_selecting send_discover schedule_backoff next_random
  retransmit_in_vacant State.selecting = e
  retransmit_in_vacant State.requesting = ground arith
  retransmit_in_vacant State.rebooting = ground arith
  retransmit_in_vacant State.renewing = ground arith
  retransmit_in_vacant State.rebinding = ground arith
  retransmit_in_vacant State.init = e
  retransmit_in_vacant State.bound = e

  tick_vacant : (tick now c).0.lease ≡ none
  unfolding tick tick_lease tick_retransmit retransmit
  tick_vacant = ground (arith, retransmit_in_vacant c.state)

-- From the state that it is in, an expired lease goes through those that are left.
module _ (n1 n2 n3 : Instant) (c : Client) (l : Lease) (b : Instant) (h : Holds c l b) where
  rebinding_expires :
      c.state ≡ State.rebinding
      → at b l.lease_time ≤ n1
      → (tick n3 (tick n2 (tick n1 c).0).0).0.lease ≡ none
  rebinding_expires s due =
      let once = tick_rebinding n1 c l b h s due in tick_vacant n3 _ (tick_vacant n2 _ once)

  renewing_expires :
      c.state ≡ State.renewing
      → IsUsable l
      → at b l.lease_time ≤ n1
      → at b l.lease_time ≤ n2
      → (tick n3 (tick n2 (tick n1 c).0).0).0.lease ≡ none
  renewing_expires s u due1 due2 =
      let (s1, h1) = tick_renewing n1 c l b h s (omega (arith, u)) in
      tick_vacant n3 _ (tick_rebinding n2 _ l b h1 s1 due2)

  bound_expires :
      c.state ≡ State.bound
      → IsUsable l
      → at b l.lease_time ≤ n1
      → at b l.lease_time ≤ n2
      → at b l.lease_time ≤ n3
      → (tick n3 (tick n2 (tick n1 c).0).0).0.lease ≡ none
  bound_expires s u due1 due2 due3 =
      let (s1, h1) = tick_bound n1 c l b h s (omega (arith, u)) in
      let (s2, h2) = tick_renewing n2 _ l b h1 s1 (omega (arith, u)) in
      tick_rebinding n3 _ l b h2 s2 due3

holding_state :
    (s : State)
    → holds_lease s ≡ true
    → (s ≡ State.bound) ⊎ ((s ≡ State.renewing) ⊎ (s ≡ State.rebinding))
holding_state s h = ground arith

holds_of : (c : Client) (l : Lease) → IsValid c → c.lease ≡ some l → holds_lease c.state ≡ true
holds_of c l v e = ground arith

IsUsable-of : (c : Client) (l : Lease) → IsValid c → c.lease ≡ some l → IsUsable l
IsUsable-of c l v e = subst Usable e v.usable_lease

-- A valid client whose lease has expired has given it up after three ticks, whichever of the states
-- that hold a lease it is in, and at whatever three times from the expiry on the ticks come.
pub tick-expiry :
    (n1 n2 n3 : Instant) (c : Client) (l : Lease) (b : Instant)
    → IsValid c
    → Holds c l b
    → at b l.lease_time ≤ n1
    → at b l.lease_time ≤ n2
    → at b l.lease_time ≤ n3
    → (tick n3 (tick n2 (tick n1 c).0).0).0.lease ≡ none
tick-expiry n1 n2 n3 c l b v h due1 due2 due3 =
    let u = IsUsable-of c l v h.lease in
    elim (holding_state c.state (holds_of c l v h.lease)) [
      | inl s ↦ bound_expires n1 n2 n3 c l b h s u due1 due2 due3
      | inr (inl s) ↦ renewing_expires n1 n2 n3 c l b h s u due1 due2
      | inr (inr s) ↦ rebinding_expires n1 n2 n3 c l b h s due1
    ]

boundary_le :
    (s : State) (l : Lease)
    → holds_lease s ≡ true
    → IsUsable l
    → (k : ℕ) × (boundary s l ≡ some k) × (k ≤ l.lease_time)
boundary_le State.bound l h u = (l.t1, refl, omega (arith, u))
boundary_le State.renewing l h u = (l.t2, refl, omega (arith, u))
boundary_le State.rebinding l h u = (l.lease_time, refl, omega arith)
boundary_le State.init l h u = cc
boundary_le State.selecting l h u = cc
boundary_le State.requesting l h u = cc
boundary_le State.rebooting l h u = cc

-- While a valid client holds a lease its next deadline is no later than the lease's expiry.
pub next_deadline-le-expiry :
    (c : Client) (l : Lease) (b : Instant)
    → IsValid c
    → Holds c l b
    → (d : Instant) × (next_deadline c ≡ some d) × (d ≤ at b l.lease_time)
unfolding next_deadline
next_deadline-le-expiry c l b v h =
    let u = IsUsable-of c l v h.lease in
    let (k, e, le) = boundary_le c.state l (holds_of c l v h.lease) u in
    elim (Option-cases c.retransmit_at) [
      | inl f ↦ (at b k, ground (arith, e, f), omega (arith, le))
      | inr (r, f) ↦ (min r (at b k), ground (arith, e, f), omega (arith, le))
    ]

-- A valid client that was started always has a next deadline.
pub next_deadline-IsSome :
    (c : Client) → IsValid c → c.state ≢ State.init → is_some (next_deadline c) ≡ true
unfolding next_deadline
next_deadline-IsSome c v started = ground arith
