-- ===== src/Dhcp4/Client/Handlers.antt =====
-- dhcp4/src/client.rs: what the caller calls: `start`, `release`, `renew_now`, `next_deadline`, `tick`
-- and `receive`.
use netd.Base.{
  ℕ, min, Bool, true, false, ◌&&◌, ◌||◌, not, Option, none, some, List, [], ◌∷◌, ◌++◌, leb, ◌==◌,
  if◌then◌else◌, is_some, or_else, map_option, ◌>>=◌,
}
use netd.Base.Bytes.{be32, bytes_eq}
use netd.Base.Time.{Instant}
use netd.Dhcp4.Code
use netd.Dhcp4.Options.{Ipv4Addr, unspecified, ipv4, MessageType, as_u8}
use netd.Dhcp4.Packet.{Message}
use netd.Dhcp4.Packet
use netd.Dhcp4.Lease.{Lease, from_ack}
use netd.Dhcp4.Client.{unicast, Action, send, lost, State, Client, at, base_message, with_option}
use netd.Dhcp4.Client.Send.{
  enter_selecting, enter_requesting, enter_rebooting, enter_renewing, enter_rebinding, retransmit,
}

unfoldable pub start : Instant → Option Ipv4Addr → Client → Client × List Action
start now previous c =
    let c1 = record c {
      started = now;
      lease = none;
      bound_at = none;
      offer = none;
      no_offer_reported = false;
    } in
    elim previous [
      | some address ↦ enter_rebooting now (record c1 { reboot_address = some address })
      | none ↦ enter_selecting now c1
    ]

abbrev pub holds_lease : State → Bool
holds_lease State.bound = true
holds_lease State.renewing = true
holds_lease State.rebinding = true
holds_lease _ = false

unfoldable pub release_message : Instant → Client → Lease → Message
release_message now c lease =
    let m = record (base_message c now) { ciaddr = lease.address } in
    let m1 = with_option m Code.message_type (as_u8 MessageType.release ∷ []) in
    let m2 = with_option m1 Code.server_id (be32 lease.server) in
    with_option m2 Code.client_id c.config.client_id

unfoldable pub release : Instant → Client → Client × List Action
unfolding release_message
release now c =
    let actions : List Action = elim c.lease [
      | none ↦ []
      | some lease ↦
          if holds_lease c.state
          then send (release_message now c lease) (unicast lease.server lease.address) ∷ []
          else []
    ] in
    (record c { state = State.init; lease = none; bound_at = none; retransmit_at = none }, actions)

unfoldable pub renew_now : Instant → Client → Client × List Action
renew_now now c = if holds_lease c.state then enter_renewing now c else (c, [])

abbrev pub boundary : State → Lease → Option ℕ
boundary State.bound lease = some lease.t1
boundary State.renewing lease = some lease.t2
boundary State.rebinding lease = some lease.lease_time
boundary _ lease = none

abbrev pub earliest : Option Instant → Option Instant → Option Instant
earliest (some a) (some b) = some (min a b)
earliest none b = b
earliest (some a) none = some a

unfoldable pub next_deadline : Client → Option Instant
next_deadline c = elim c.lease [
  | none ↦ c.retransmit_at
  | some lease ↦ elim c.bound_at [
    | none ↦ c.retransmit_at
    | some bound_at ↦
        earliest c.retransmit_at (map_option (λ s. at bound_at s) (boundary c.state lease))
  ]
]

-- What the lease's boundaries do, and whether `tick` returns there.
pub data Boundary : Type 0 where
  go_on : Client → List Action → Boundary
  return : Client → List Action → Boundary

unfoldable pub boundary_in : State → Instant → Client → Lease → Instant → Boundary
boundary_in State.bound now c lease bound_at =
    let (c1, actions) = enter_renewing now c in
    if leb (at bound_at lease.t1) now then go_on c1 actions else go_on c []
boundary_in State.renewing now c lease bound_at =
    let (c1, actions) = enter_rebinding now c in
    if leb (at bound_at lease.t2) now then go_on c1 actions else go_on c []
boundary_in State.rebinding now c lease bound_at =
    let (c1, actions) = enter_selecting now (record c { lease = none; bound_at = none }) in
    if leb (at bound_at lease.lease_time) now then return c1 (lost ∷ actions) else go_on c []
boundary_in _ now c lease bound_at = go_on c []

unfoldable pub tick_lease : Instant → Client → Boundary
unfolding boundary_in
tick_lease now c = elim c.lease [
  | none ↦ go_on c []
  | some lease ↦ elim c.bound_at [
    | none ↦ go_on c []
    | some bound_at ↦ boundary_in c.state now c lease bound_at
  ]
]

unfoldable pub tick_retransmit : Instant → Client → Client × List Action
tick_retransmit now c = elim c.retransmit_at [
  | none ↦ (c, [])
  | some due ↦ if leb due now then retransmit now c else (c, [])
]

-- What `tick` does behind the boundaries.
abbrev pub tick_on : Instant → Boundary → Client × List Action
tick_on now (return c1 actions) = (c1, actions)
tick_on now (go_on c1 actions) = let (c2, more) = tick_retransmit now c1 in (c2, actions ++ more)

unfoldable pub tick : Instant → Client → Client × List Action
tick now c = tick_on now (tick_lease now c)

abbrev pub is_verdict : MessageType → Bool
is_verdict MessageType.ack = true
is_verdict MessageType.nak = true
is_verdict _ = false

-- The server that was chosen: the lease's, else the offer's.
unfoldable pub chosen_server : Client → Option Ipv4Addr
chosen_server c =
    or_else (map_option (λ (l : Lease). l.server) c.lease)
      (c.offer >>= λ o. ipv4 Code.server_id o.options)

abbrev pub same_server : Ipv4Addr → Option Ipv4Addr → Bool
same_server chosen none = false
same_server chosen (some s) = s == chosen

-- A verdict from a server that was not chosen.
unfoldable pub is_stranger : Client → Message → Bool
is_stranger c m = elim (chosen_server c) [
  | none ↦ false
  | some chosen ↦ not (same_server chosen (ipv4 Code.server_id m.options))
]

unfoldable pub accept_offer : Instant → Message → Client → Client × List Action
accept_offer now m c =
    if m.yiaddr == unspecified || not (is_some (ipv4 Code.server_id m.options))
    then (c, [])
    else enter_requesting now (record c { offer = some m })

unfoldable pub accept_ack : Instant → Message → Client → Client × List Action
accept_ack now m c = elim (from_ack m) [
  | none ↦ (c, [])
  | some lease ↦ (
    record c {
      no_offer_reported = false;
      state = State.bound;
      retransmit_at = none;
      bound_at = some now;
      lease = some lease;
      reboot_address = some lease.address;
    },
    Action.bound lease ∷ [],
  )
]

unfoldable pub accept_nak : Instant → Client → Client × List Action
accept_nak now c = enter_selecting now (record c { reboot_address = none; offer = none })

unfoldable pub lose_to_nak : Instant → Client → Client × List Action
lose_to_nak now c =
    let (c1, actions) =
      enter_selecting now (record c { lease = none; bound_at = none; reboot_address = none }) in
    (c1, lost ∷ actions)

unfoldable pub receive_in : State → MessageType → Instant → Message → Client → Client × List Action
receive_in State.selecting MessageType.offer now m c = accept_offer now m c
receive_in State.requesting MessageType.ack now m c = accept_ack now m c
receive_in State.rebooting MessageType.ack now m c = accept_ack now m c
receive_in State.renewing MessageType.ack now m c = accept_ack now m c
receive_in State.rebinding MessageType.ack now m c = accept_ack now m c
receive_in State.requesting MessageType.nak now m c = accept_nak now c
receive_in State.rebooting MessageType.nak now m c = accept_nak now c
receive_in State.renewing MessageType.nak now m c = lose_to_nak now c
receive_in State.rebinding MessageType.nak now m c = lose_to_nak now c
receive_in _ _ now m c = (c, [])

abbrev pub is_for_us : Client → Message → Bool
is_for_us c m = m.is_reply && (m.xid == c.xid && bytes_eq m.chaddr c.config.chaddr)

unfoldable pub receive : Instant → Message → Client → Client × List Action
unfolding receive_in
receive now m c = if not (is_for_us c m) then (c, []) else elim (Packet.message_type m) [
  | none ↦ (c, [])
  | some kind ↦
      if is_verdict kind && is_stranger c m then (c, []) else receive_in c.state kind now m c
]
