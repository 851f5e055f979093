-- ===== src/Dhcp4/Client/Traffic.antt =====
-- Which messages may change the client's lease (dhcp4/src/client.rs, `receive`).
use netd.Base.{◌≡◌, ◌⊎◌, true, Option, none, some}
use netd.Dhcp4.Code
use netd.Dhcp4.Options.{MessageType, Ipv4Addr, ipv4}
use netd.Dhcp4.Packet.{Message}
use netd.Dhcp4.Packet
use netd.Dhcp4.Lease.{Lease, from_ack}
use netd.Dhcp4.Client.{Client}

-- The message answers our transaction, and comes from the server that the client has chosen: that
-- of its lease, or, while it has none, that of the offer it took.
pub record IsAuthentic (c : Client) (m : Message) : Type 0 where
  pub reply : m.is_reply ≡ true
  pub transaction : m.xid ≡ c.xid
  pub hardware : m.chaddr ≡ c.config.chaddr
  pub lease_server : (l : Lease) → c.lease ≡ some l → ipv4 Code.server_id m.options ≡ some l.server
  pub offer_server :
      (o : Message) (s : Ipv4Addr)
      → c.lease ≡ none
      → c.offer ≡ some o
      → ipv4 Code.server_id o.options ≡ some s
      → ipv4 Code.server_id m.options ≡ some s

-- What a message may do to the lease.
abbrev pub LeaseChange : Client → Message → Option Lease → Type 0
LeaseChange c m after =
    (after ≡ c.lease)
    ⊎ (IsAuthentic c m × (Packet.message_type m ≡ some MessageType.ack) × (after ≡ from_ack m))
    ⊎ (IsAuthentic c m × (Packet.message_type m ≡ some MessageType.nak) × (after ≡ none))

-- `inl` where the lease stays, and the verdict with what it makes of the lease elsewhere.
abbrev Verdict : MessageType → Message → Option Lease → Type 0
Verdict kind m after =
    ((kind ≡ MessageType.ack) × (after ≡ from_ack m)) ⊎ ((kind ≡ MessageType.nak) × (after ≡ none))
