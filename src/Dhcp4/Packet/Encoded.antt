-- ===== src/Dhcp4/Packet/Encoded.antt =====
-- The bytes that `encode` writes (dhcp4/src/packet.rs).
use netd.Base.{
  ℕ, zero, ◌-◌, ◌≤◌, ◌<◌, min, List, [], ◌∷◌, ◌++◌, arith, if◌then◌else◌, length, take, replicate,
  All, All-append, All-take, All-replicate, length-append, length-replicate,
}
use netd.Base.Bytes.{IsByte, IsBytes, be16, be32}
use netd.Dhcp4.Code
use netd.Dhcp4.Options.{Options}
use netd.Dhcp4.Packet.{Message, encode, encode_options, encode_header, magic_cookie}

-- The hardware address and the options hold bytes.
pub record HoldsBytes (m : Message) : Type 0 where
  pub hardware : IsBytes m.chaddr
  pub options : All (λ (p : ℕ × List ℕ). (p.0 < 256) × IsBytes p.1) m.options

encode_options-IsBytes :
    (o : Options)
    → All (λ (p : ℕ × List ℕ). (p.0 < 256) × IsBytes p.1) o
    → IsBytes (encode_options o)
unfolding encode_options
encode_options-IsBytes [] h = tt
encode_options-IsBytes ((code, v) ∷ o) h =
    let data' = take (min (length v) 255) v in
    (
      h.0.0,
      (
        omega arith,
        All-append IsByte data' (encode_options o) (All-take IsByte (min (length v) 255) v h.0.1)
            (encode_options-IsBytes o h.1),
      ),
    )

module _ (rest : List ℕ) (h : IsBytes rest) where
  with_word16 : (v : ℕ) → IsBytes (be16 v ++ rest)
  with_word16 v = (omega arith, (omega arith, h))

  with_word32 : (v : ℕ) → IsBytes (be32 v ++ rest)
  with_word32 v = (omega arith, (omega arith, (omega arith, (omega arith, h))))

encode_header-IsBytes : (m : Message) → IsBytes m.chaddr → IsBytes (encode_header m)
unfolding encode_header
encode_header-IsBytes m h =
    let zeros = replicate 10 0 ++ (replicate 64 0 ++ (replicate 128 0 ++ magic_cookie)) in
    let v8 = m.chaddr ++ zeros in
    let v7 = be32 m.giaddr ++ v8 in
    let v6 = be32 m.siaddr ++ v7 in
    let v5 = be32 m.yiaddr ++ v6 in
    let v4 = be32 m.ciaddr ++ v5 in
    let v3 = be16 (if m.broadcast then 0x8000 else 0) ++ v4 in
    let v2 = be16 m.secs ++ v3 in
    let h8 : IsBytes v8 = All-append IsByte m.chaddr zeros h (omega arith) in
    let h6 = with_word32 v7 (with_word32 v8 h8 m.giaddr) m.siaddr in
    let h4 = with_word32 v5 (with_word32 v6 h6 m.yiaddr) m.ciaddr in
    let h3 = with_word16 v4 h4 (if m.broadcast then 0x8000 else 0) in
    let h2 = with_word32 v2 (with_word16 v3 h3 m.secs) m.xid in
    (ground arith, (omega arith, (omega arith, (omega arith, h2))))

length-padded : (out : List ℕ) → 300 ≤ length (out ++ replicate (300 - length out) 0)
length-padded out = omega (
  arith,
  length-append out (replicate (300 - length out) 0),
  length-replicate (300 - length out) (zero),
)

-- A message of bytes is encoded as bytes, at least the 300 that BOOTP asks for.
pub encode-IsBytes : (m : Message) → HoldsBytes m → IsBytes (encode m) × (300 ≤ length (encode m))
unfolding encode
encode-IsBytes m h =
    let out = encode_header m ++ (encode_options m.options ++ (Code.end ∷ [])) in
    (
      All-append IsByte out (replicate (300 - length out) 0)
          (All-append IsByte (encode_header m) (encode_options m.options ++ (Code.end ∷ []))
            (encode_header-IsBytes m h.hardware)
            (All-append IsByte (encode_options m.options) (Code.end ∷ [])
              (encode_options-IsBytes m.options h.options) (omega arith)))
          (All-replicate IsByte (300 - length out) 0 (omega arith)),
      length-padded out,
    )
