-- ===== src/Dhcp4/Packet.antt =====
-- dhcp4/src/packet.rs: `Message`, `encode` and `decode`. `[u8; 6]` is a list of six bytes.
pub mod RoundTrip
pub mod Decoded
pub mod Encoded
use netd.Base.{
  ℕ, zero, suc, ◌+◌, ◌-◌, ◌%◌, ◌≤◌, ◌<◌, min, bit_and, Bool, true, false, ◌&&◌, ◌||◌, not, Option,
  none, some, List, [], ◌∷◌, ◌++◌, ltb, leb, ◌==◌, if◌then◌else◌, ◌>>=◌, length, take, drop,
  replicate, Loop, done, stuck, run_or,
}
use netd.Base.Bytes.{be16, be32, from_be16, from_be32, byte_at, bytes_eq, split}
use netd.Dhcp4.Code
use netd.Dhcp4.Options.{Options, Ipv4Addr, unspecified, push, MessageType}
use netd.Dhcp4.Options as O

abbrev pub magic_cookie : List ℕ
magic_cookie = 0x63 ∷ 0x82 ∷ 0x53 ∷ 0x63 ∷ []

abbrev pub bootrequest : ℕ
bootrequest = 1

abbrev pub bootreply : ℕ
bootreply = 2

abbrev pub htype_ethernet : ℕ
htype_ethernet = 1

abbrev pub flag_broadcast : ℕ
flag_broadcast = 0x8000

-- The fixed part of a BOOTP message, before the cookie.
abbrev pub fixed_len : ℕ
fixed_len = 236

pub record Message : Type 0 where
  pub is_reply : Bool
  pub xid : ℕ  -- u32
  pub secs : ℕ  -- u16
  pub broadcast : Bool
  pub ciaddr : Ipv4Addr
  pub yiaddr : Ipv4Addr
  pub siaddr : Ipv4Addr
  pub giaddr : Ipv4Addr
  pub chaddr : List ℕ  -- [u8; 6]
  pub options : Options

unfoldable pub request : ℕ → List ℕ → Message
request xid chaddr = record {
  is_reply = false;
  xid = xid;
  secs = 0;
  broadcast = false;
  ciaddr = unspecified;
  yiaddr = unspecified;
  siaddr = unspecified;
  giaddr = unspecified;
  chaddr = chaddr;
  options = [];
}

unfoldable pub message_type : Message → Option MessageType
message_type m = O.message_type m.options

-- The loop over the options. A value past 255 bytes is cut there.
encode_options : Options → List ℕ
encode_options [] = []
encode_options ((code, v) ∷ o) =
    let data' = take (min (length v) 255) v in
    code ∷ length data' % 256 ∷ (data' ++ encode_options o)

-- What stands before the options: the fixed part and the cookie.
encode_header : Message → List ℕ
encode_header m =
    (if m.is_reply then bootreply else bootrequest)
    ∷ htype_ethernet
    ∷ 6
    ∷ 0
    ∷ (be32 m.xid
        ++ (be16 m.secs
            ++ (be16 (if m.broadcast then flag_broadcast else 0)
                ++ (be32 m.ciaddr
                    ++ (be32 m.yiaddr
                        ++ (be32 m.siaddr
                            ++ (be32 m.giaddr
                                ++ (m.chaddr
                                    ++ (replicate 10 0
                                        ++ (replicate 64 0
                                            ++ (replicate 128 0 ++ magic_cookie)))))))))))

-- The `while` loop at the end pushes zeros until there are 300 bytes.
unfoldable pub encode : Message → List ℕ
unfolding encode_options encode_header
encode m =
    let out = encode_header m ++ (encode_options m.options ++ (Code.end ∷ [])) in
    out ++ replicate (300 - length out) 0

-- The length byte at the cursor and the data behind it; `none` where either is cut off.
take_data : List ℕ → Option (List ℕ × List ℕ)
take_data [] = none
take_data (len ∷ rest) = split len rest

-- The `while` loop of `decode`. The list is `bytes[i..]`; `none` is its early return.
pub options_loop : ℕ → List ℕ → Options → Loop (Option Options)
options_loop fuel [] o = done (some o)
options_loop zero (code ∷ rest) o = stuck
options_loop (suc fuel) (code ∷ rest) o =
    let skip = options_loop fuel rest o in
    let read : Loop (Option Options) = elim (take_data rest) [
      | none ↦ done none
      | some (v, rest') ↦ options_loop fuel rest' (push o code v)
    ] in
    if code == Code.pad then skip else if code == Code.end then done (some o) else read

-- Each round takes a byte at least, so the length is fuel enough.
unfoldable pub decode_options : List ℕ → Option Options
unfolding options_loop take_data split
decode_options bytes = run_or none (options_loop (length bytes) bytes [])

ipv4_of : List ℕ → ℕ → Ipv4Addr
ipv4_of bytes o =
    from_be32 (byte_at bytes o) (byte_at bytes (o + 1)) (byte_at bytes (o + 2))
      (byte_at bytes (o + 3))

-- The message whose fixed part is at the front of `bytes`.
pub message_of : List ℕ → Options → Message
unfolding ipv4_of
message_of bytes options = record {
  is_reply = byte_at bytes 0 == bootreply;
  xid = ipv4_of bytes 4;
  secs = from_be16 (byte_at bytes 8) (byte_at bytes 9);
  broadcast = not (bit_and (from_be16 (byte_at bytes 10) (byte_at bytes 11)) flag_broadcast == 0);
  ciaddr = ipv4_of bytes 12;
  yiaddr = ipv4_of bytes 16;
  siaddr = ipv4_of bytes 20;
  giaddr = ipv4_of bytes 24;
  chaddr = take 6 (drop 28 bytes);
  options = options;
}

unfoldable pub decode : List ℕ → Option Message
decode bytes =
    if ltb (length bytes) (fixed_len + 4)
    then none
    else if not (byte_at bytes 1 == htype_ethernet) || not (byte_at bytes 2 == 6)
    then none
    else if not (bytes_eq (take 4 (drop fixed_len bytes)) magic_cookie)
    then none
    else do options ← decode_options (drop (fixed_len + 4) bytes); some (message_of bytes options)
