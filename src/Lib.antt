-- ===== src/Lib.antt =====
-- Verification of netd, the network daemon of Peios: its socket-free protocol engines, which take the
-- time and the bytes that arrived and return the actions the daemon is to perform.
--
-- The program. `netd` (netd/src/main.rs) owns the sockets and the event loop. For each interface it
-- runs the engines of three crates: `dhcp4` leases an IPv4 address, `ndp` listens to IPv6 routers, and
-- `dhcp6` asks for DNS settings where a router says so. It feeds an engine with `start`, `tick` and
-- `receive`, sleeps until `next_deadline`, and performs what the call returned: sends a packet,
-- configures the interface from a lease, or publishes DNS. What the interfaces should be is then
-- reconciled with what the kernel shows (netd/src/reconcile.rs), under the profiles and the policy of
-- `netd-core`.
--
-- The files.
--   Base: library names, tests on numbers, lists measured by native numbers, bytes and big-endian
--     words (Base/Bytes), UTF-8 decoding (Base/Utf8), instants (Base/Time), the `BTreeMap` as a sorted
--     list (Base/BtreeMap), `==` on lists and options (Base/Equality), loops in sequence (Base/Rounds),
--     addresses of either family (Base/Net), what stands in a list (Base/Members), the readers of numbers and addresses (Base/Text).
--   Dhcp4/Code, Dhcp4/Options, Dhcp4/Packet: dhcp4/src/packet.rs, the codes and message types, the
--     readers of `Options`, and `Message::{request, encode, decode}`; the children of Packet are on
--     the round trip (RoundTrip), on what decoding yields (Decoded) and what encoding writes (Encoded).
--   Dhcp4/Lease: `Lease::from_ack`, `gateway`, the classless routes and the masks; its children are on
--     the timers, the routes and the masks. Dhcp4/Search: `decode_domain_search`; Ends is on its loops.
--   Dhcp4/Client: dhcp4/src/client.rs. The fields of `Client` are one record; Client/Send has the
--     methods that write messages and enter states, Client/Handlers the calls `start`, `release`,
--     `renew_now`, `tick` and `receive`. The other children are proofs: Valid and Calls on the
--     invariant, Views on the interface that follows the actions, Traffic on who may change the
--     lease, Reports on NoOffer, Expiry on the lease's end and the deadline.
--   Wire6: the server list and the name list (`domain_list`) that ndp/src/packet.rs and
--     dhcp6/src/lib.rs both have.
--   Dhcp6/Options, Dhcp6/Client: dhcp6/src/lib.rs, the options and the client, with proofs in
--     Client/Running (the timers), Client/Genuine and Client/Replies (what is taken) and
--     Client/Requests (what is sent).
--   Ndp/Packet: ndp/src/packet.rs, `RouterAdvert::decode` and `solicit`, with proofs in Packet/Bounds.
--   Ndp/Engine: ndp/src/engine.rs, the SLAAC engine of an interface. Engine has its types and the
--     stable addresses, Engine/Draw `new_temp`, Engine/Lifetimes `expire`, Engine/Observed the `View`
--     and `next_deadline`, Engine/Handlers `start`, `receive` and `tick`. The proofs: Current, Deadline
--     and Reached on the state behind a call and on its deadline, Same on what a call leaves alone,
--     Views on `Changed`, Guarded on lifetimes and on identifiers that are drawn, Ends on receiving
--     without temporary addresses.
--   Daemon/Model: netd/src/model.rs, links, addresses and routes as the kernel shows them.
--     Daemon/BtreeSet: the sets that the reconciler compares. Daemon/Reconcile:
--     netd/src/reconcile.rs, `plan` and `apply`; its children are on what a plan may touch (Owned), on
--     when it is empty (Empty, by the sets it compares; Addressed and Routed, by the lists behind them,
--     with Keys on the sets; Settled), and on the calls that are made and their failures (Applied). Daemon/Restart: netd/src/restart.rs,
--     with proofs in Restart/Kept, Restart/Caught and Restart/Spared.
--     Daemon/Framing: netd/src/dhcp.rs, `ip_udp`, `checksum` and `udp_payload`, with proofs in
--     Framing/Checked and Framing/Delivered. Daemon/Interface: netd/src/main.rs, `Interface::desired`;
--     Interface/Reported has `level`, `dns`, the restart state, the machine's level and the loop of
--     `reconcile_all`. The proofs: Heeded on what is taken of the network's offer, Told on lists without
--     repetition and the machine's level, Resolvers on `dns`, Touched on the steps of a pass. Daemon/Config: netd/src/config.rs, `parse_hex`
--     and `format_hex`, with proofs in Config/Hex.
--   Core/Hostname: netd-core/src/hostname.rs, the machine's name; Hostname/Labels says which are taken.
--     Core/Raw: netd-core/src/raw.rs. Core/Profile: netd-core/src/profile.rs, its data and
--     those of netd-core/src/policy.rs; Profile/Values has the readers of a value, Profile/Tree `parse`, `walk` and
--     `resolve`. The proofs: Items, Sound and Resolved on every profile of a tree, Inherited on the values
--     that hold at a key. Core/Policy: netd-core/src/policy.rs, `lower`, `build` and `judge`; the proofs
--     are Abstains, on rules that name a disabled profile, Written, on what the rules engine reads as a
--     JOIN, and Judged.
--   Dhcp4/Examples, Dhcp6/Examples, Ndp/Examples, Ndp/Engine/Examples, Daemon/Examples,
--     Daemon/Interface/Examples, Core/Hostname/Examples, Core/Profile/Examples,
--     Core/Policy/Examples: runs at concrete inputs.
--
-- The models. A method with `&mut self` is a function that returns the new record with the actions.
-- Bytes and words are native numbers, and a conversion that cuts (`as u8`, `wrapping_mul`, `<<` on
-- u64) has its `% 2 ^ w`. `Instant` and `Duration` are nanoseconds; an addition past the end of the
-- platform's clock, a panic of the standard library, is left out. A String is the list of its UTF-8
-- bytes, in netd-core that of its characters, an address its number. A slice that a loop advances
-- is passed as what is left of it.
--
-- Fuel. Each loop over bytes takes a byte at least in every round, so the length of its input (and one
-- for the last look at the empty rest) is enough; a name of a domain search may jump backwards, and
-- its rounds are bounded by the hop limit and the length together (Dhcp4/Search). A loop that runs out
-- is `stuck`. The loop of the SLAAC engine that draws an identifier has no such bound: it runs on a
-- number of rounds that is an argument, and theorems on its engine are about the calls that finish.
-- Without temporary addresses no draw is made, and receiving finishes; the decoder of advertisements
-- has its own loop over the options, whose fuel is enough on every input.
--
-- Netlink is the parameter `Rtnl` of `apply`, over any state of the kernel and with any outcome of a
-- call; nothing is assumed of it.
--
-- The rules engine of netd-core/src/policy.rs is the parameter `Engine` of Core/Policy; a theorem that
-- needs the forest to name only profiles that the rules join has that as a hypothesis, in which a JOIN is
-- what the parser of actions under vendor/kernel/security/pkm/pnp_core/action.rs documents
-- (Core/Policy/Written): white space left out, JOIN in any case, a backslash read as a slash.
--
-- The digest of the stable addresses is the parameter `sha1` of Ndp/Engine; nothing is assumed of it.
--
-- Not modelled: sockets, the registry, audit and logs, which only pass values on; the control
-- protocol of `netd` and its event loop, which starts and stops the clients; interface and network
-- ids, which are SHA-1 digests; the client library and its C interface; the rules engine under
-- vendor/, a copy of another project.
pub mod Base
pub mod Dhcp4
pub mod Wire6
pub mod Dhcp6
pub mod Ndp
pub mod Daemon
pub mod Core
