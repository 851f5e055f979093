-- ===== src/Dhcp4/Client/Calls.antt =====
-- The calls of dhcp4/src/client.rs, the clients they lead to, and the invariant.
use netd.Base.{◌≡◌, refl, inl, inr, false, Option, none, some, arith, Bool-cases, Option-cases}
use netd.Base.Time.{Instant}
use netd.Dhcp4.Options.{Ipv4Addr, MessageType}
use netd.Dhcp4.Packet.{Message}
use netd.Dhcp4.Packet
use netd.Dhcp4.Lease.{Lease, from_ack}
use netd.Dhcp4.Lease.Timers.{from_ack-IsUsable}
use netd.Dhcp4.Client.{Config, State, Client, first_backoff, new}
use netd.Dhcp4.Client.Send.{enter_requesting}
use netd.Dhcp4.Client.Handlers.{
  start, holds_lease, release, renew_now, Boundary, go_on, return, boundary_in, tick_lease, tick,
  tick_on, accept_offer, accept_ack, accept_nak, lose_to_nak, receive_in, receive, is_for_us,
}
use netd.Dhcp4.Client.Valid.{
  IsValid, vacant, new-IsValid, start-IsValid, release-IsValid, renew_now-IsValid, renewing-IsValid,
  rebinding-IsValid, enter_selecting-IsValid, send_request_for_offer-IsValid,
  tick_retransmit-IsValid,
}

abbrev pub client_of : Boundary → Client
client_of (go_on c actions) = c
client_of (return c actions) = c

module _ (now : Instant) (c : Client) (v : IsValid c) where
  boundary_in-IsValid :
      (l : Lease) (b : Instant) (s : State)
      → c.state ≡ s
      → IsValid (client_of (boundary_in s now c l b))
  unfolding boundary_in
  boundary_in-IsValid l b State.bound e = ground (arith, renewing-IsValid now c v (ground arith))
  boundary_in-IsValid l b State.renewing e =
      ground (arith, rebinding-IsValid now c v (ground arith))
  boundary_in-IsValid l b State.rebinding e =
      ground
        (arith, enter_selecting-IsValid now (record c { lease = none; bound_at = none }) refl refl)
  boundary_in-IsValid l b State.init e = v
  boundary_in-IsValid l b State.selecting e = v
  boundary_in-IsValid l b State.requesting e = v
  boundary_in-IsValid l b State.rebooting e = v

  tick_lease-IsValid : IsValid (client_of (tick_lease now c))
  unfolding tick_lease
  tick_lease-IsValid = elim (Option-cases c.lease) [
    | inl e ↦ rw (e, tick_lease) v
    | inr (l, e) ↦ elim (Option-cases c.bound_at) [
      | inl f ↦ rw (e, f, tick_lease) v
      | inr (b, f) ↦ rw (e, f, tick_lease) (boundary_in-IsValid l b c.state refl)
    ]
  ]

-- `tick` keeps the invariant.
pub tick-IsValid : (now : Instant) (c : Client) → IsValid c → IsValid (tick now c).0
unfolding tick
tick-IsValid now c v = go (tick_lease now c) (tick_lease-IsValid now c v)
  where
    go : (b : Boundary) → IsValid (client_of b) → IsValid (tick_on now b).0
    go (go_on c1 actions) w = tick_retransmit-IsValid now c1 w
    go (return c1 actions) w = w

module _ (now : Instant) (m : Message) (c : Client) (v : IsValid c) where
  accept_offer-IsValid : c.state ≡ State.selecting → IsValid (accept_offer now m c).0
  unfolding accept_offer enter_requesting
  accept_offer-IsValid s =
      let (l, b) = vacant c v (ground arith) in
      let c1 : Client = record c {
        offer = some m;
        state = State.requesting;
        attempts = 0;
        backoff = first_backoff;
      } in
      ground (arith, send_request_for_offer-IsValid now c1 (omega arith) (omega arith) refl l b)

  accept_ack-IsValid : IsValid (accept_ack now m c).0
  unfolding accept_ack
  accept_ack-IsValid = elim (Option-cases (from_ack m)) [
    | inl e ↦ rw (e, accept_ack) v
    | inr (l, e) ↦ let u = from_ack-IsUsable m l e in rw (e, accept_ack) (ground arith)
  ]

  accept_nak-IsValid : holds_lease c.state ≡ false → IsValid (accept_nak now c).0
  unfolding accept_nak
  accept_nak-IsValid h = let (l, b) = vacant c v h in enter_selecting-IsValid now _ l b

  lose_to_nak-IsValid : IsValid (lose_to_nak now c).0
  unfolding lose_to_nak
  lose_to_nak-IsValid = enter_selecting-IsValid now _ refl refl

  receive_in-IsValid :
      (s : State) (kind : MessageType) → c.state ≡ s → IsValid (receive_in s kind now m c).0
  unfolding receive_in
  receive_in-IsValid State.selecting MessageType.offer e = accept_offer-IsValid e
  receive_in-IsValid State.requesting MessageType.ack e = accept_ack-IsValid
  receive_in-IsValid State.rebooting MessageType.ack e = accept_ack-IsValid
  receive_in-IsValid State.renewing MessageType.ack e = accept_ack-IsValid
  receive_in-IsValid State.rebinding MessageType.ack e = accept_ack-IsValid
  receive_in-IsValid State.requesting MessageType.nak e = accept_nak-IsValid (ground arith)
  receive_in-IsValid State.rebooting MessageType.nak e = accept_nak-IsValid (ground arith)
  receive_in-IsValid State.renewing MessageType.nak e = lose_to_nak-IsValid
  receive_in-IsValid State.rebinding MessageType.nak e = lose_to_nak-IsValid
  receive_in-IsValid _ _ e = v

-- `receive` keeps the invariant, whatever message comes in.
pub receive-IsValid :
    (now : Instant) (m : Message) (c : Client) → IsValid c → IsValid (receive now m c).0
unfolding receive
receive-IsValid now m c v = elim (Bool-cases (is_for_us c m)) [
  | inl p ↦ elim (Option-cases (Packet.message_type m)) [
    | inl e ↦ rw (p, e, receive) v
    | inr (kind, e) ↦
        let step = receive_in-IsValid now m c v c.state kind refl in
        rw (p, e, receive) (ground (arith, step))
  ]
  | inr p ↦ rw p v
]

-- The clients that the calls lead to.
pub data Reach : Client → Type 0 where
  created : (config : Config) (now : Instant) → Reach (new config now)
  started :
      {c : Client} (now : Instant) (previous : Option Ipv4Addr)
      → Reach c
      → Reach (start now previous c).0
  released : {c : Client} (now : Instant) → Reach c → Reach (release now c).0
  renewed : {c : Client} (now : Instant) → Reach c → Reach (renew_now now c).0
  ticked : {c : Client} (now : Instant) → Reach c → Reach (tick now c).0
  received : {c : Client} (now : Instant) (m : Message) → Reach c → Reach (receive now m c).0

-- Every client that can be reached by any calls, in any order, at any times and with any messages,
-- is valid: it holds a usable lease, with its date, exactly in the states bound, renewing and
-- rebinding, a transmission is due exactly in the states that await an answer, and the backoff lies
-- between 4 and 64 seconds.
pub Reach-IsValid : {c : Client} → Reach c → IsValid c
Reach-IsValid (created config now) = new-IsValid config now
Reach-IsValid (started now previous r) = start-IsValid now _ (Reach-IsValid r) previous
Reach-IsValid (released now r) = release-IsValid now _ (Reach-IsValid r)
Reach-IsValid (renewed now r) = renew_now-IsValid now _ (Reach-IsValid r)
Reach-IsValid (ticked now r) = tick-IsValid now _ (Reach-IsValid r)
Reach-IsValid (received now m r) = receive-IsValid now m _ (Reach-IsValid r)
