-- ===== src/Dhcp4/Lease/Timers.antt =====
-- What `from_ack` guarantees of a lease (dhcp4/src/packet.rs).
use netd.Base.{
  ℕ, zero, suc, ◌+◌, ◌/◌, ◌≤◌, ◌<◌, ◌≡◌, ◌≢◌, inl, inr, some, arith, Option-cases, keep_if,
}
use netd.Dhcp4.Code
use netd.Dhcp4.Options.{Options, Ipv4Addr, unspecified, ipv4}
use netd.Dhcp4.Packet.{Message}
use netd.Dhcp4.Lease.{
  Lease, from_ack, first_timer, second_timer, mask_prefix, classful_prefix, count_ones, is_mask,
}

first_timer_bounds :
    (o : Options) (lease_time : ℕ)
    → 4 ≤ lease_time
    → (0 < first_timer o lease_time) × (first_timer o lease_time + 1 < lease_time)
unfolding first_timer
first_timer_bounds o lease_time h = ground arith

second_timer_bounds :
    (o : Options) (lease_time t1 : ℕ)
    → t1 + 1 < lease_time
    → (t1 < second_timer o lease_time t1) × (second_timer o lease_time t1 < lease_time)
unfolding second_timer
second_timer_bounds o lease_time t1 h = ground arith

count_ones-le : (n m : ℕ) → count_ones n m ≤ n
unfolding count_ones
count_ones-le zero m = omega arith
count_ones-le (suc n) m = omega (arith, count_ones-le n (m / 2))

mask_prefix-le : (o : Options) (a : Ipv4Addr) → mask_prefix o a ≤ 32
unfolding mask_prefix classful_prefix
mask_prefix-le o a = elim (Option-cases (keep_if is_mask (ipv4 Code.subnet_mask o))) [
  | inl e ↦ rw e (ground arith)
  | inr (m, e) ↦ rw e (omega (arith, count_ones-le 32 m))
]

-- A lease that the client can run on.
pub record IsUsable (l : Lease) : Type 0 where
  pub addressed : l.address ≢ unspecified
  pub prefix_fits : l.prefix ≤ 32
  pub t1_positive : 0 < l.t1
  pub t1_before_t2 : l.t1 < l.t2
  pub t2_before_expiry : l.t2 < l.lease_time

-- A lease that `from_ack` takes from any message has an address, a prefix of at most 32, and
-- 0 < T1 < T2 < lease time.
pub from_ack-IsUsable : (m : Message) (l : Lease) → from_ack m ≡ some l → IsUsable l
unfolding from_ack
from_ack-IsUsable m l h = ground (
  arith,
  mask_prefix-le m.options m.yiaddr,
  first_timer_bounds m.options l.lease_time,
  second_timer_bounds m.options l.lease_time (first_timer m.options l.lease_time),
)
