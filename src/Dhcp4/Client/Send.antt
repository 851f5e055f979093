-- ===== src/Dhcp4/Client/Send.antt =====
-- dhcp4/src/client.rs: the `enter_*` and `send_*` transitions, and `retransmit`.
use netd.Base.{
  ℕ, ◌+◌, ◌-◌, ◌/◌, ◌%◌, max, true, ◌&&◌, ◌||◌, not, Option, none, some, List, [], ◌∷◌, ◌++◌, leb,
  if◌then◌else◌,
}
use netd.Base.Bytes.{be32, u32_mod}
use netd.Base.Time.{Instant}
use netd.Dhcp4.Code
use netd.Dhcp4.Options.{Options, Ipv4Addr, unspecified, ipv4, push, MessageType, as_u8}
use netd.Dhcp4.Options as O
use netd.Dhcp4.Packet.{Message}
use netd.Dhcp4.Lease.{Lease}
use netd.Dhcp4.Client.{
  Destination, broadcast, unicast, Action, send, no_offer, State, Client, discovers_before_no_offer,
  max_requests, first_backoff, min_retransmit, at, next_random, base_message, common_options,
  with_option, schedule_backoff,
}

abbrev pub requested : Message → Option Ipv4Addr → Message
requested m none = m
requested m (some a) = with_option m Code.requested_ip (be32 a)

-- The messages, apart from the timers that sending them sets.
unfoldable pub discover_message : Instant → Client → Message
discover_message now c =
    let m = record (base_message c now) { broadcast = true } in
    requested (common_options c m MessageType.discover) c.reboot_address

unfoldable pub send_discover : Instant → Client → Client × List Action
send_discover now c = (schedule_backoff now c, send (discover_message now c) broadcast ∷ [])

unfoldable pub enter_selecting : Instant → Client → Client × List Action
enter_selecting now c =
    let (x, c1) = next_random (record c { state = State.selecting }) in
    send_discover now (record c1 { xid = x; attempts = 0; backoff = first_backoff; offer = none })

abbrev pub named_server : Message → Option (List ℕ) → Message
named_server m none = m
named_server m (some server) = with_option m Code.server_id server

unfoldable pub offer_message : Instant → Client → Message → Message
offer_message now c offer =
    let m =
      common_options c (record (base_message c now) { broadcast = true }) MessageType.request in
    named_server (with_option m Code.requested_ip (be32 offer.yiaddr))
      (O.get Code.server_id offer.options)

unfoldable pub send_request_for_offer : Instant → Client → Client × List Action
send_request_for_offer now c = elim c.offer [
  | none ↦ enter_selecting now c
  | some offer ↦ (schedule_backoff now c, send (offer_message now c offer) broadcast ∷ [])
]

unfoldable pub enter_requesting : Instant → Client → Client × List Action
enter_requesting now c =
    send_request_for_offer now
      (record c { state = State.requesting; attempts = 0; backoff = first_backoff })

unfoldable pub reboot_message : Instant → Client → Ipv4Addr → Message
reboot_message now c address =
    let m =
      common_options c (record (base_message c now) { broadcast = true }) MessageType.request in
    with_option m Code.requested_ip (be32 address)

unfoldable pub send_reboot_request : Instant → Client → Client × List Action
send_reboot_request now c = elim c.reboot_address [
  | none ↦ enter_selecting now c
  | some address ↦ (schedule_backoff now c, send (reboot_message now c address) broadcast ∷ [])
]

unfoldable pub enter_rebooting : Instant → Client → Client × List Action
enter_rebooting now c =
    let (x, c1) = next_random (record c { state = State.rebooting }) in
    send_reboot_request now (record c1 { xid = x; attempts = 0; backoff = first_backoff })

-- Renewing asks the server itself, any other state asks everybody.
abbrev pub renewal_destination : State → Lease → Destination
renewal_destination State.renewing lease = unicast lease.server lease.address
renewal_destination _ lease = broadcast

abbrev pub renewal_boundary : State → Lease → ℕ
renewal_boundary State.renewing lease = lease.t2
renewal_boundary _ lease = lease.lease_time

unfoldable pub renewal_message : Instant → Client → Lease → Message
renewal_message now c lease =
    common_options c (record (base_message c now) { ciaddr = lease.address }) MessageType.request

unfoldable pub renew_from : Instant → Client → Lease → Instant → Client × List Action
renew_from now c lease bound_at =
    let remaining = at bound_at (renewal_boundary c.state lease) - now in
    (
      record c { retransmit_at = some (now + max (remaining / 2) min_retransmit) },
      send (renewal_message now c lease) (renewal_destination c.state lease) ∷ [],
    )

unfoldable pub send_renewal : Instant → Client → Client × List Action
send_renewal now c = elim c.lease [
  | none ↦ (c, [])
  | some lease ↦ elim c.bound_at [
    | none ↦ (c, [])
    | some bound_at ↦ renew_from now c lease bound_at
  ]
]

unfoldable pub enter_renewing : Instant → Client → Client × List Action
enter_renewing now c =
    let (x, c1) = next_random (record c { state = State.renewing }) in
    send_renewal now (record c1 { xid = x; attempts = 0 })

unfoldable pub enter_rebinding : Instant → Client → Client × List Action
enter_rebinding now c =
    let (x, c1) = next_random (record c { state = State.rebinding }) in
    send_renewal now (record c1 { xid = x; attempts = 0 })

abbrev pub count_attempt : Client → Client
count_attempt c = record c { attempts = (c.attempts + 1) % u32_mod }

unfoldable pub retransmit_selecting : Instant → Client → Client × List Action
retransmit_selecting now c =
    let report = leb discovers_before_no_offer c.attempts && not c.no_offer_reported in
    let c1 = record c { no_offer_reported = report || c.no_offer_reported } in
    let (c2, actions) = send_discover now c1 in
    (c2, (if report then no_offer ∷ [] else []) ++ actions)

unfoldable pub retransmit_in : State → Instant → Client → Client × List Action
unfolding retransmit_selecting
retransmit_in State.selecting now c = retransmit_selecting now (count_attempt c)
retransmit_in State.requesting now c =
    let c1 = count_attempt c in
    if leb max_requests c1.attempts then enter_selecting now c1 else send_request_for_offer now c1
retransmit_in State.rebooting now c =
    let c1 = count_attempt c in
    if leb 2 c1.attempts
    then enter_selecting now (record c1 { reboot_address = none })
    else send_reboot_request now c1
retransmit_in State.renewing now c = send_renewal now c
retransmit_in State.rebinding now c = send_renewal now c
retransmit_in _ now c = (c, [])

unfoldable pub retransmit : Instant → Client → Client × List Action
unfolding retransmit_in
retransmit now c = retransmit_in c.state now c
