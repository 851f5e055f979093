-- ===== src/Dhcp4/Client/Views.antt =====
-- What the caller of dhcp4/src/client.rs sees: an abstract interface that carries the lease last
-- reported by `Bound` and not yet taken back by `Lost`.
use netd.Base.{
  ◌+◌, ◌%◌, ◌≡◌, refl, ◌∙◌, inl, inr, Option, none, some, List, [], ◌∷◌, ◌++◌, arith, Option-cases,
}
use netd.Base.Bytes.{u32_mod}
use netd.Base.Time.{Instant}
use netd.Dhcp4.Options.{MessageType}
use netd.Dhcp4.Packet.{Message}
use netd.Dhcp4.Packet
use netd.Dhcp4.Lease.{Lease}
use netd.Dhcp4.Client.{Action, send, no_offer, lost, State, Client, next_random, schedule_backoff}
use netd.Dhcp4.Client.Send.{
  send_discover, enter_selecting, send_request_for_offer, enter_requesting, send_reboot_request,
  renew_from, send_renewal, enter_renewing, enter_rebinding, retransmit_in, retransmit,
}
use netd.Dhcp4.Client.Handlers.{
  renew_now, Boundary, go_on, return, boundary_in, tick_lease, tick_retransmit, tick, tick_on,
  accept_offer, accept_ack, accept_nak, lose_to_nak, receive_in, receive,
}

-- The interface after the caller has performed the actions.
abbrev pub configure : Option Lease → List Action → Option Lease
configure o [] = o
configure o (Action.bound l ∷ as') = configure (some l) as'
configure o (lost ∷ as') = configure none as'
configure o (_ ∷ as') = configure o as'

configure-append :
    (o : Option Lease) (as' bs : List Action)
    → configure o (as' ++ bs) ≡ configure (configure o as') bs
configure-append o [] bs = refl
configure-append o (Action.bound l ∷ as') bs = configure-append (some l) as' bs
configure-append o (lost ∷ as') bs = configure-append none as' bs
configure-append o (no_offer ∷ as') bs = configure-append o as' bs
configure-append o (send m d ∷ as') bs = configure-append o as' bs

-- The actions change the interface as the step changes the client's lease.
abbrev Tracks : Option Lease → Client × List Action → Type 0
Tracks o r = configure o r.1 ≡ r.0.lease

module _ (now : Instant) (c : Client) where
  send_discover-Tracks : Tracks c.lease (send_discover now c)
  unfolding send_discover schedule_backoff next_random
  send_discover-Tracks = refl

  enter_selecting-Tracks : Tracks c.lease (enter_selecting now c)
  unfolding enter_selecting send_discover schedule_backoff next_random
  enter_selecting-Tracks = refl

  send_request_for_offer-Tracks : Tracks c.lease (send_request_for_offer now c)
  unfolding send_request_for_offer schedule_backoff next_random
  send_request_for_offer-Tracks = ground (arith, enter_selecting-Tracks)

  send_reboot_request-Tracks : Tracks c.lease (send_reboot_request now c)
  unfolding send_reboot_request schedule_backoff next_random
  send_reboot_request-Tracks = ground (arith, enter_selecting-Tracks)

  send_renewal-Tracks : Tracks c.lease (send_renewal now c)
  unfolding send_renewal renew_from
  send_renewal-Tracks = ground arith

boundary_actions : Boundary → Client × List Action
boundary_actions (go_on c1 as') = (c1, as')
boundary_actions (return c1 as') = (c1, as')

module _ (now : Instant) (c : Client) where
  enter_renewing-Tracks : Tracks c.lease (enter_renewing now c)
  unfolding enter_renewing next_random
  enter_renewing-Tracks = send_renewal-Tracks now _

  enter_rebinding-Tracks : Tracks c.lease (enter_rebinding now c)
  unfolding enter_rebinding next_random
  enter_rebinding-Tracks = send_renewal-Tracks now _

  enter_requesting-Tracks : Tracks c.lease (enter_requesting now c)
  unfolding enter_requesting
  enter_requesting-Tracks = send_request_for_offer-Tracks now _

  retransmit_in-Tracks : (s : State) → Tracks c.lease (retransmit_in s now c)
  unfolding retransmit_in send_discover schedule_backoff next_random
  retransmit_in-Tracks State.selecting = ground arith
  retransmit_in-Tracks State.requesting =
      let c1 : Client = record c { attempts = (c.attempts + 1) % u32_mod } in
      ground (arith, enter_selecting-Tracks now c1, send_request_for_offer-Tracks now c1)
  retransmit_in-Tracks State.rebooting =
      let c1 : Client = record c { attempts = (c.attempts + 1) % u32_mod } in
      ground (
        arith,
        enter_selecting-Tracks now (record c1 { reboot_address = none }),
        send_reboot_request-Tracks now c1,
      )
  retransmit_in-Tracks State.renewing = send_renewal-Tracks now c
  retransmit_in-Tracks State.rebinding = send_renewal-Tracks now c
  retransmit_in-Tracks State.init = refl
  retransmit_in-Tracks State.bound = refl

  tick_retransmit-Tracks : Tracks c.lease (tick_retransmit now c)
  unfolding tick_retransmit retransmit
  tick_retransmit-Tracks = ground (arith, retransmit_in-Tracks c.state)

  renew_now-Tracks : Tracks c.lease (renew_now now c)
  unfolding renew_now
  renew_now-Tracks = ground (arith, enter_renewing-Tracks)

  boundary_in-Tracks :
      (l : Lease) (b : Instant) (s : State)
      → Tracks c.lease (boundary_actions (boundary_in s now c l b))
  unfolding boundary_in boundary_actions
  boundary_in-Tracks l b State.bound = ground (arith, enter_renewing-Tracks)
  boundary_in-Tracks l b State.renewing = ground (arith, enter_rebinding-Tracks)
  boundary_in-Tracks l b State.rebinding =
      ground (arith, enter_selecting-Tracks now (record c { lease = none; bound_at = none }))
  boundary_in-Tracks l b State.init = refl
  boundary_in-Tracks l b State.selecting = refl
  boundary_in-Tracks l b State.requesting = refl
  boundary_in-Tracks l b State.rebooting = refl

  tick_lease-Tracks : Tracks c.lease (boundary_actions (tick_lease now c))
  unfolding tick_lease boundary_actions
  tick_lease-Tracks = elim (Option-cases c.lease) [
    | inl e ↦ ground (arith, e)
    | inr (l, e) ↦ elim (Option-cases c.bound_at) [
      | inl f ↦ ground (arith, e, f)
      | inr (b, f) ↦ ground (arith, e, f, boundary_in-Tracks l b c.state)
    ]
  ]

tick_on-Tracks :
    (now : Instant) (o : Option Lease) (b : Boundary)
    → Tracks o (boundary_actions b)
    → Tracks o (tick_on now b)
unfolding boundary_actions
tick_on-Tracks now o (return c1 as') h = h
tick_on-Tracks now o (go_on c1 as') h =
    configure-append o as' (tick_retransmit now c1).1 ∙ rw h (tick_retransmit-Tracks now c1)

-- Performing what `tick` returns leaves the interface with the client's lease.
pub tick-configure :
    (now : Instant) (c : Client) → configure c.lease (tick now c).1 ≡ (tick now c).0.lease
unfolding tick
tick-configure now c = tick_on-Tracks now c.lease (tick_lease now c) (tick_lease-Tracks now c)

module _ (now : Instant) (m : Message) (c : Client) where
  accept_offer-Tracks : Tracks c.lease (accept_offer now m c)
  unfolding accept_offer
  accept_offer-Tracks = ground (arith, enter_requesting-Tracks now (record c { offer = some m }))

  accept_ack-Tracks : Tracks c.lease (accept_ack now m c)
  unfolding accept_ack
  accept_ack-Tracks = ground arith

  lose_to_nak-Tracks : Tracks c.lease (lose_to_nak now c)
  unfolding lose_to_nak
  lose_to_nak-Tracks =
      enter_selecting-Tracks now (record c { lease = none; bound_at = none; reboot_address = none })

  receive_in-Tracks : (s : State) (kind : MessageType) → Tracks c.lease (receive_in s kind now m c)
  unfolding receive_in accept_nak
  receive_in-Tracks State.selecting MessageType.offer = accept_offer-Tracks
  receive_in-Tracks State.requesting MessageType.ack = accept_ack-Tracks
  receive_in-Tracks State.rebooting MessageType.ack = accept_ack-Tracks
  receive_in-Tracks State.renewing MessageType.ack = accept_ack-Tracks
  receive_in-Tracks State.rebinding MessageType.ack = accept_ack-Tracks
  receive_in-Tracks State.requesting MessageType.nak = enter_selecting-Tracks now _
  receive_in-Tracks State.rebooting MessageType.nak = enter_selecting-Tracks now _
  receive_in-Tracks State.renewing MessageType.nak = lose_to_nak-Tracks
  receive_in-Tracks State.rebinding MessageType.nak = lose_to_nak-Tracks
  receive_in-Tracks _ _ = refl

  -- So does performing what `receive` returns.
  pub receive-configure : configure c.lease (receive now m c).1 ≡ (receive now m c).0.lease
  unfolding receive
  receive-configure = elim (Option-cases (Packet.message_type m)) [
    | inl e ↦ ground (arith, e)
    | inr (kind, e) ↦ ground (arith, e, receive_in-Tracks c.state kind)
  ]

-- What the caller does between `start` and `release`.
pub data Call : Type 0 where
  ticked : Instant → Call
  received : Instant → Message → Call
  renewed : Instant → Call

unfoldable pub call : Call → Client → Client × List Action
call (ticked now) c = tick now c
call (received now m) c = receive now m c
call (renewed now) c = renew_now now c

unfoldable pub run : List Call → Client → Client × List Action
run [] c = (c, [])
run (k ∷ ks) c = let (c1, as') = call k c in let (c2, bs) = run ks c1 in (c2, as' ++ bs)

call-configure : (k : Call) (c : Client) → configure c.lease (call k c).1 ≡ (call k c).0.lease
unfolding call
call-configure (ticked now) c = tick-configure now c
call-configure (received now m) c = receive-configure now m c
call-configure (renewed now) c = renew_now-Tracks now c

-- Over every sequence of ticks, messages and forced renewals, an interface that starts with the
-- client's lease and performs the returned actions in order ends with the client's lease.
pub run-configure :
    (ks : List Call) (c : Client) → configure c.lease (run ks c).1 ≡ (run ks c).0.lease
unfolding run
run-configure [] c = refl
run-configure (k ∷ ks) c =
    configure-append c.lease (call k c).1 (run ks (call k c).0).1
    ∙ rw (call-configure k c) (run-configure ks (call k c).0)
