-- ===== src/Dhcp4/Code.antt =====
-- dhcp4/src/packet.rs, the module `option`: the codes that this client speaks.
use netd.Base.{ℕ}

abbrev pub pad : ℕ
pad = 0

abbrev pub subnet_mask : ℕ
subnet_mask = 1

abbrev pub router : ℕ
router = 3

abbrev pub dns : ℕ
dns = 6

abbrev pub hostname : ℕ
hostname = 12

abbrev pub domain_name : ℕ
domain_name = 15

abbrev pub mtu : ℕ
mtu = 26

abbrev pub broadcast : ℕ
broadcast = 28

abbrev pub ntp : ℕ
ntp = 42

abbrev pub requested_ip : ℕ
requested_ip = 50

abbrev pub lease_time : ℕ
lease_time = 51

abbrev pub message_type : ℕ
message_type = 53

abbrev pub server_id : ℕ
server_id = 54

abbrev pub parameter_request_list : ℕ
parameter_request_list = 55

abbrev pub max_message_size : ℕ
max_message_size = 57

abbrev pub renewal_t1 : ℕ
renewal_t1 = 58

abbrev pub rebinding_t2 : ℕ
rebinding_t2 = 59

abbrev pub client_id : ℕ
client_id = 61

abbrev pub domain_search : ℕ
domain_search = 119

abbrev pub classless_static_route : ℕ
classless_static_route = 121

abbrev pub end : ℕ
end = 255
