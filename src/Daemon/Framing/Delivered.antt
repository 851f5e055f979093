-- ===== src/Daemon/Framing/Delivered.antt =====
-- netd/src/dhcp.rs: what `udp_payload` reads of a datagram that `ip_udp` wrote.
use netd.Base.{ℕ, ◌+◌, ◌/◌, ◌%◌, ◌<◌, ◌≡◌, refl, some, List, [], ◌∷◌, ◌++◌, arith, length, take}
use netd.Base.Bytes.{u16_mod, from_be16-be16}
use netd.Daemon.Framing.{client_port, ip_header, udp_header, ip_udp, udp_payload, checksum}

take_all : (n : ℕ) (xs : List ℕ) → n ≡ length xs → take n xs ≡ xs
take_all n [] h = ground arith
take_all n (x ∷ xs) h = ground (arith, take_all (length xs) xs refl)

-- With any bytes in place of the checksum.
datagram : ℕ → ℕ → ℕ → ℕ → ℕ → ℕ → List ℕ → List ℕ
datagram src dst sport dport hi lo payload =
    ip_header (20 + (8 + length payload)) src dst hi lo
    ++ (udp_header sport dport (8 + length payload) ++ payload)

datagram-payload :
    (src dst sport hi lo : ℕ) (payload : List ℕ)
    → 8 + length payload < u16_mod
    → udp_payload (datagram src dst sport client_port hi lo payload) ≡ some payload
unfolding udp_payload datagram
datagram-payload src dst sport hi lo payload h =
    let word = from_be16-be16 (8 + length payload) h in
    let packet = datagram src dst sport client_port hi lo payload in
    let long : length packet ≡ 28 + length payload = ground arith in
    let whole = take_all (length payload) payload refl in ground (arith, long, word, whole)

-- A payload whose datagram is within the 65535 bytes of one is read back from a datagram to the port
-- of the client.
pub udp_payload-ip_udp :
    (src dst sport : ℕ) (payload : List ℕ)
    → 28 + length payload < u16_mod
    → udp_payload (ip_udp src dst sport client_port payload) ≡ some payload
unfolding ip_udp datagram
udp_payload-ip_udp src dst sport payload h =
    let sum = checksum (ip_header (20 + (8 + length payload)) src dst 0 0) in
    datagram-payload src dst sport (sum / 256) (sum % 256) payload (omega arith)
