-- ===== src/Dhcp4/Client/Reports.antt =====
-- How often the client of dhcp4/src/client.rs reports `NoOffer`.
use netd.Base.{
  ℕ, suc, ◌+◌, ◌%◌, ◌≤◌, ◌≡◌, inl, inr, none, some, List, [], ◌∷◌, ◌++◌, arith, if◌then◌else◌,
  Option-cases,
}
use netd.Base.Bytes.{u32_mod}
use netd.Base.Time.{Instant}
use netd.Dhcp4.Options.{MessageType}
use netd.Dhcp4.Packet.{Message}
use netd.Dhcp4.Packet
use netd.Dhcp4.Lease.{Lease}
use netd.Dhcp4.Client.{Action, send, no_offer, lost, State, Client, next_random, schedule_backoff}
use netd.Dhcp4.Client.Send.{
  send_discover, enter_selecting, send_request_for_offer, enter_requesting, send_reboot_request,
  renew_from, send_renewal, enter_renewing, enter_rebinding, retransmit_in, retransmit,
}
use netd.Dhcp4.Client.Handlers.{
  renew_now, Boundary, go_on, return, boundary_in, tick_lease, tick_retransmit, tick, tick_on,
  accept_offer, accept_ack, accept_nak, lose_to_nak, receive_in, receive,
}
use netd.Dhcp4.Client.Views.{Call, ticked, received, renewed, call, run}

-- The reports, and the leases obtained, among the actions.
pub no_offers : List Action → ℕ
no_offers [] = 0
no_offers (no_offer ∷ as') = suc (no_offers as')
no_offers (_ ∷ as') = no_offers as'

pub leases : List Action → ℕ
leases [] = 0
leases (Action.bound l ∷ as') = suc (leases as')
leases (_ ∷ as') = leases as'

-- The reports that the client may still make before it obtains a lease.
abbrev pub left : Client → ℕ
left c = if c.no_offer_reported then 0 else 1

-- Every step pays for its reports.
abbrev Pays : ℕ → Client × List Action → Type 0
Pays n r = no_offers r.1 + left r.0 ≤ n + leases r.1

counts-append :
    (as' bs : List Action)
    → (no_offers (as' ++ bs) ≡ no_offers as' + no_offers bs)
      × (leases (as' ++ bs) ≡ leases as' + leases bs)
unfolding no_offers leases
counts-append [] bs = omega arith
counts-append (Action.bound l ∷ as') bs = omega (arith, counts-append as' bs)
counts-append (lost ∷ as') bs = omega (arith, counts-append as' bs)
counts-append (no_offer ∷ as') bs = omega (arith, counts-append as' bs)
counts-append (send m d ∷ as') bs = omega (arith, counts-append as' bs)

module _ (now : Instant) (c : Client) where
  enter_selecting-Pays : Pays (left c) (enter_selecting now c)
  unfolding enter_selecting send_discover schedule_backoff next_random no_offers leases
  enter_selecting-Pays = omega arith

  send_request_for_offer-Pays : Pays (left c) (send_request_for_offer now c)
  unfolding send_request_for_offer schedule_backoff next_random no_offers leases
  send_request_for_offer-Pays = ground (arith, enter_selecting-Pays)

  send_reboot_request-Pays : Pays (left c) (send_reboot_request now c)
  unfolding send_reboot_request schedule_backoff next_random no_offers leases
  send_reboot_request-Pays = ground (arith, enter_selecting-Pays)

  send_renewal-Pays : Pays (left c) (send_renewal now c)
  unfolding send_renewal renew_from no_offers leases
  send_renewal-Pays = ground arith

module _ (now : Instant) (c : Client) where
  enter_renewing-Pays : Pays (left c) (enter_renewing now c)
  unfolding enter_renewing next_random
  enter_renewing-Pays = send_renewal-Pays now _

  enter_rebinding-Pays : Pays (left c) (enter_rebinding now c)
  unfolding enter_rebinding next_random
  enter_rebinding-Pays = send_renewal-Pays now _

  enter_requesting-Pays : Pays (left c) (enter_requesting now c)
  unfolding enter_requesting
  enter_requesting-Pays = send_request_for_offer-Pays now _

  retransmit_in-Pays : (s : State) → Pays (left c) (retransmit_in s now c)
  unfolding retransmit_in send_discover schedule_backoff next_random no_offers leases
  retransmit_in-Pays State.selecting = ground arith
  retransmit_in-Pays State.requesting =
      let c1 : Client = record c { attempts = (c.attempts + 1) % u32_mod } in
      ground (arith, enter_selecting-Pays now c1, send_request_for_offer-Pays now c1)
  retransmit_in-Pays State.rebooting =
      let c1 : Client = record c { attempts = (c.attempts + 1) % u32_mod } in
      ground (
        arith,
        enter_selecting-Pays now (record c1 { reboot_address = none }),
        send_reboot_request-Pays now c1,
      )
  retransmit_in-Pays State.renewing = send_renewal-Pays now c
  retransmit_in-Pays State.rebinding = send_renewal-Pays now c
  retransmit_in-Pays State.init = omega arith
  retransmit_in-Pays State.bound = omega arith

  tick_retransmit-Pays : Pays (left c) (tick_retransmit now c)
  unfolding tick_retransmit retransmit no_offers leases
  tick_retransmit-Pays = ground (arith, retransmit_in-Pays c.state)

  renew_now-Pays : Pays (left c) (renew_now now c)
  unfolding renew_now no_offers leases
  renew_now-Pays = ground (arith, enter_renewing-Pays)

boundary_step : Boundary → Client × List Action
boundary_step (go_on c1 as') = (c1, as')
boundary_step (return c1 as') = (c1, as')

module _ (now : Instant) (c : Client) where
  boundary_in-Pays :
      (l : Lease) (b : Instant) (s : State)
      → Pays (left c) (boundary_step (boundary_in s now c l b))
  unfolding boundary_in boundary_step no_offers leases
  boundary_in-Pays l b State.bound = ground (arith, enter_renewing-Pays now c)
  boundary_in-Pays l b State.renewing = ground (arith, enter_rebinding-Pays now c)
  boundary_in-Pays l b State.rebinding =
      ground (arith, enter_selecting-Pays now (record c { lease = none; bound_at = none }))
  boundary_in-Pays l b State.init = omega arith
  boundary_in-Pays l b State.selecting = omega arith
  boundary_in-Pays l b State.requesting = omega arith
  boundary_in-Pays l b State.rebooting = omega arith

  tick_lease-Pays : Pays (left c) (boundary_step (tick_lease now c))
  unfolding tick_lease boundary_step no_offers leases
  tick_lease-Pays = elim (Option-cases c.lease) [
    | inl e ↦ ground (arith, e)
    | inr (l, e) ↦ elim (Option-cases c.bound_at) [
      | inl f ↦ ground (arith, e, f)
      | inr (b, f) ↦ ground (arith, e, f, boundary_in-Pays l b c.state)
    ]
  ]

tick_on-Pays :
    (now : Instant) (n : ℕ) (b : Boundary) → Pays n (boundary_step b) → Pays n (tick_on now b)
unfolding boundary_step
tick_on-Pays now n (return c1 as') h = h
tick_on-Pays now n (go_on c1 as') h =
    omega (arith, tick_retransmit-Pays now c1, counts-append as' (tick_retransmit now c1).1)

tick-Pays : (now : Instant) (c : Client) → Pays (left c) (tick now c)
unfolding tick
tick-Pays now c = tick_on-Pays now (left c) (tick_lease now c) (tick_lease-Pays now c)

module _ (now : Instant) (m : Message) (c : Client) where
  accept_offer-Pays : Pays (left c) (accept_offer now m c)
  unfolding accept_offer no_offers leases
  accept_offer-Pays = ground (arith, enter_requesting-Pays now (record c { offer = some m }))

  accept_ack-Pays : Pays (left c) (accept_ack now m c)
  unfolding accept_ack no_offers leases
  accept_ack-Pays = ground arith

  lose_to_nak-Pays : Pays (left c) (lose_to_nak now c)
  unfolding lose_to_nak no_offers leases
  lose_to_nak-Pays =
      enter_selecting-Pays now (record c { lease = none; bound_at = none; reboot_address = none })

  receive_in-Pays : (s : State) (kind : MessageType) → Pays (left c) (receive_in s kind now m c)
  unfolding receive_in accept_nak no_offers leases
  receive_in-Pays State.selecting MessageType.offer = accept_offer-Pays
  receive_in-Pays State.requesting MessageType.ack = accept_ack-Pays
  receive_in-Pays State.rebooting MessageType.ack = accept_ack-Pays
  receive_in-Pays State.renewing MessageType.ack = accept_ack-Pays
  receive_in-Pays State.rebinding MessageType.ack = accept_ack-Pays
  receive_in-Pays State.requesting MessageType.nak = enter_selecting-Pays now _
  receive_in-Pays State.rebooting MessageType.nak = enter_selecting-Pays now _
  receive_in-Pays State.renewing MessageType.nak = lose_to_nak-Pays
  receive_in-Pays State.rebinding MessageType.nak = lose_to_nak-Pays
  receive_in-Pays _ _ = omega arith

  receive-Pays : Pays (left c) (receive now m c)
  unfolding receive no_offers leases
  receive-Pays = elim (Option-cases (Packet.message_type m)) [
    | inl e ↦ ground (arith, e)
    | inr (kind, e) ↦ ground (arith, e, receive_in-Pays c.state kind)
  ]

call-Pays : (k : Call) (c : Client) → Pays (left c) (call k c)
unfolding call
call-Pays (ticked now) c = tick-Pays now c
call-Pays (received now m) c = receive-Pays now m c
call-Pays (renewed now) c = renew_now-Pays now c

-- Over every sequence of ticks, messages and forced renewals, `NoOffer` is reported at most once
-- more often than a lease is obtained, and not once more where it stood reported before.
pub run-no_offers :
    (ks : List Call) (c : Client)
    → no_offers (run ks c).1 + left (run ks c).0 ≤ left c + leases (run ks c).1
unfolding run no_offers leases
run-no_offers [] c = omega arith
run-no_offers (k ∷ ks) c = omega (
  arith,
  call-Pays k c,
  run-no_offers ks (call k c).0,
  counts-append (call k c).1 (run ks (call k c).0).1,
)
