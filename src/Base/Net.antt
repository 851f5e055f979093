-- ===== src/Base/Net.antt =====
-- `IpAddr` of the standard library: an address of either family, as its number.
use netd.Base.{ℕ, Bool, true, false}

pub data IpAddr : Type 0 where
  v4 : ℕ → IpAddr
  v6 : ℕ → IpAddr

abbrev pub is_v4_address : IpAddr → Bool
is_v4_address (IpAddr.v4 a) = true
is_v4_address (IpAddr.v6 a) = false
