-- ===== src/Dhcp4/Packet/RoundTrip.antt =====
-- `decode` on what `encode` writes (dhcp4/src/packet.rs).
use netd.Base.{
  ℕ, zero, suc, ◌-◌, ◌%◌, ◌≤◌, ◌<◌, min, bit_and, ◌≡◌, refl, sym, ap, ◌∙◌, ◌≢◌, inl, inr, true,
  false, not, some, List, [], ◌∷◌, ◌++◌, ltb, leb, ◌==◌, ◌>>=◌, length, take, drop, replicate, done,
  All, arith, take-append, drop-append, length-append, le→leb, Bool-cases,
}
use netd.Base.Bytes.{
  split, from_be16, byte_at, bytes_eq_refl, u16_mod, u32_mod, from_be32-be32, from_be16-be16,
}
use netd.Dhcp4.Code
use netd.Dhcp4.Options.{Options, push}
use netd.Dhcp4.Packet.{
  Message, encode, decode, encode_options, encode_header, take_data, options_loop, decode_options,
  magic_cookie, message_of, ipv4_of,
}
use mathlib.Core.Path.{subst}
use mathlib.Core.List.{append_assoc, append-nil}

-- An option that the wire can carry: neither padding nor the end marker, and at most 255 bytes.
abbrev pub IsOption : ℕ × List ℕ → Type 0
IsOption p = (p.0 ≢ Code.pad) × (p.0 ≢ Code.end) × (length p.1 ≤ 255)

-- A message whose fields fit their types and whose options the wire can carry.
pub record IsWire (m : Message) : Type 0 where
  pub xid_fits : m.xid < u32_mod
  pub secs_fits : m.secs < u16_mod
  pub ciaddr_fits : m.ciaddr < u32_mod
  pub yiaddr_fits : m.yiaddr < u32_mod
  pub siaddr_fits : m.siaddr < u32_mod
  pub giaddr_fits : m.giaddr < u32_mod
  pub chaddr_six : length m.chaddr ≡ 6
  pub options_fit : All IsOption m.options

take_all : (v : List ℕ) → length v ≤ 255 → take (min (length v) 255) v ≡ v
take_all v h =
    let e : min (length v) 255 ≡ length v = omega arith in
    let f : v ++ [] ≡ v = append-nil v in rw e (rw f at (take-append v []))

take_data-append :
    (v rest : List ℕ) → length v ≤ 255 → take_data (length v % 256 ∷ (v ++ rest)) ≡ some (v, rest)
unfolding take_data split
take_data-append v rest h =
    let e : length v % 256 ≡ length v = omega arith in
    let fits : leb (length v) (length (v ++ rest)) ≡ true =
      le→leb _ _ (omega (arith, length-append v rest)) in
    rw (e, fits, take-append v rest, drop-append v rest)

options_loop-push :
    (fuel code : ℕ) (v rest : List ℕ) (o : Options)
    → IsOption (code, v)
    → options_loop (suc fuel) (code ∷ length v % 256 ∷ (v ++ rest)) o
      ≡ options_loop fuel rest (push o code v)
unfolding options_loop
options_loop-push fuel code v rest o h = rw (take_data-append v rest h.2) (ground (arith, h.0, h.1))

options_loop-end :
    (fuel : ℕ) (padding : List ℕ) (o : Options)
    → options_loop (suc fuel) (Code.end ∷ padding) o ≡ done (some o)
unfolding options_loop
options_loop-end fuel padding o = refl

length-encode_options : (o : Options) → length o ≤ length (encode_options o)
unfolding encode_options
length-encode_options [] = omega arith
length-encode_options ((code, v) ∷ o) =
    omega (
      arith,
      length-encode_options o,
      length-append (take (min (length v) 255) v) (encode_options o),
    )

-- One round on an option as `encode` writes it.
options_loop-option :
    (fuel code : ℕ) (v : List ℕ) (o acc : Options) (padding : List ℕ)
    → IsOption (code, v)
    → options_loop (suc fuel) (encode_options ((code, v) ∷ o) ++ (Code.end ∷ padding)) acc
      ≡ options_loop fuel (encode_options o ++ (Code.end ∷ padding)) (push acc code v)
unfolding encode_options
options_loop-option fuel code v o acc padding h = rw (take_all v h.2) (
    rw (append_assoc v (encode_options o) (Code.end ∷ padding))
      (options_loop-push fuel code v (encode_options o ++ (Code.end ∷ padding)) acc h))

options_loop-encode :
    (o acc : Options) (padding : List ℕ) (fuel : ℕ)
    → All IsOption o
    → length o < fuel
    → options_loop fuel (encode_options o ++ (Code.end ∷ padding)) acc ≡ done (some (acc ++ o))
options_loop-encode o acc padding zero h hf = absurd (omega arith)
options_loop-encode [] acc padding (suc fuel) h hf =
    rw append-nil (unfold encode_options in options_loop-end fuel padding acc)
options_loop-encode ((code, v) ∷ o) acc padding (suc fuel) h hf =
    rw (← append_assoc acc ((code, v) ∷ []) o) (
      options_loop-option fuel code v o acc padding h.0
      ∙ options_loop-encode o (acc ++ ((code, v) ∷ [])) padding fuel h.1 (omega arith))

-- The header is 240 bytes: what the fixed reads and the cookie see, and what the options follow.
six_bytes : (v : List ℕ) → length v ≡ 6 → (a b c d e f : ℕ) × (v ≡ a ∷ b ∷ c ∷ d ∷ e ∷ f ∷ [])
six_bytes (a ∷ b ∷ c ∷ d ∷ e ∷ f ∷ []) h = (a, b, c, d, e, f, refl)
six_bytes v h = absurd (omega arith)

module _ (m : Message) (a b c d e f : ℕ) (w : IsWire m) (rest : List ℕ) where
  abbrev explicit : Message
  explicit = record m { chaddr = a ∷ b ∷ c ∷ d ∷ e ∷ f ∷ [] }

  abbrev wire : List ℕ
  wire = encode_header explicit ++ rest

  long_enough : ltb (length wire) 240 ≡ false
  unfolding encode_header
  long_enough = ground arith

  -- The parts that the guards look at, and what lies behind the cookie.
  framing :
      (byte_at wire 1 ≡ 1)
      × (byte_at wire 2 ≡ 6)
      × (take 4 (drop 236 wire) ≡ magic_cookie)
      × (drop 240 wire ≡ rest)
      × (take 6 (drop 28 wire) ≡ a ∷ b ∷ c ∷ d ∷ e ∷ f ∷ [])
  unfolding encode_header
  framing = (refl, refl, refl, refl, refl)

  reply_read : (byte_at wire 0 == 2) ≡ m.is_reply
  unfolding encode_header
  reply_read = elim (Bool-cases m.is_reply) [ inl p ↦ rw p refl | inr p ↦ rw p refl ]

  flag_read :
      not (bit_and (from_be16 (byte_at wire 10) (byte_at wire 11)) 0x8000 == 0) ≡ m.broadcast
  unfolding encode_header
  flag_read = elim (Bool-cases m.broadcast) [ inl p ↦ rw p refl | inr p ↦ rw p refl ]

  words_read :
      (ipv4_of wire 4 ≡ m.xid)
      × (from_be16 (byte_at wire 8) (byte_at wire 9) ≡ m.secs)
      × (ipv4_of wire 12 ≡ m.ciaddr)
      × (ipv4_of wire 16 ≡ m.yiaddr)
      × (ipv4_of wire 20 ≡ m.siaddr)
      × (ipv4_of wire 24 ≡ m.giaddr)
  unfolding encode_header ipv4_of
  words_read = (
    from_be32-be32 m.xid w.xid_fits,
    from_be16-be16 m.secs w.secs_fits,
    from_be32-be32 m.ciaddr w.ciaddr_fits,
    from_be32-be32 m.yiaddr w.yiaddr_fits,
    from_be32-be32 m.siaddr w.siaddr_fits,
    from_be32-be32 m.giaddr w.giaddr_fits,
  )

  decode-header :
      decode wire
      ≡ (decode_options rest >>= λ options. some (record explicit { options = options }))
  unfolding decode message_of
  decode-header =
      let (eth, six, cookie, behind, mac) = framing in
      let (x, s, ci, yi, si, gi) = words_read in
      rw (long_enough, eth, six, cookie, bytes_eq_refl magic_cookie, behind, mac)
        (rw (reply_read, flag_read, x, s, ci, yi, si, gi))

explicit_chaddr : (m : Message) (v : List ℕ) → m.chaddr ≡ v → m ≡ record m { chaddr = v }
explicit_chaddr m v e = λ i. record m { chaddr = e i }

-- What `encode` pads with.
abbrev padding_of : Message → List ℕ
padding_of m =
    replicate (300 - length (encode_header m ++ (encode_options m.options ++ (Code.end ∷ [])))) 0

encode_split :
    (m : Message)
    → encode m ≡ encode_header m ++ (encode_options m.options ++ (Code.end ∷ padding_of m))
unfolding encode
encode_split m =
    append_assoc (encode_header m) (encode_options m.options ++ (Code.end ∷ [])) (padding_of m)
    ∙ ap (λ t. encode_header m ++ t)
        (append_assoc (encode_options m.options) (Code.end ∷ []) (padding_of m))

decode_options-encode :
    (o : Options) (padding : List ℕ)
    → All IsOption o
    → decode_options (encode_options o ++ (Code.end ∷ padding)) ≡ some o
unfolding decode_options
decode_options-encode o padding h = rw (
    options_loop-encode o [] padding (length (encode_options o ++ (Code.end ∷ padding))) h (
      omega
        (arith, length-encode_options o, length-append (encode_options o) (Code.end ∷ padding))))

decode-encode_explicit :
    (m : Message) (a b c d e f : ℕ) (w : IsWire m)
    → decode (encode (record m { chaddr = a ∷ b ∷ c ∷ d ∷ e ∷ f ∷ [] }))
      ≡ some (record m { chaddr = a ∷ b ∷ c ∷ d ∷ e ∷ f ∷ [] })
decode-encode_explicit m a b c d e f w =
    let n : Message = record m { chaddr = a ∷ b ∷ c ∷ d ∷ e ∷ f ∷ [] } in
    let rest = encode_options m.options ++ (Code.end ∷ padding_of n) in
    rw (encode_split n, decode-header m a b c d e f w rest)
      (rw (decode_options-encode m.options (padding_of n) w.options_fit))

-- Every message that the wire can carry is decoded, from the bytes that `encode` writes for it, to
-- itself.
pub decode-encode : (m : Message) → IsWire m → decode (encode m) ≡ some m
decode-encode m w =
    let (a, b, c, d, e, f, p) = six_bytes m.chaddr w.chaddr_six in
    subst (λ (x : Message). decode (encode x) ≡ some x)
      (sym (explicit_chaddr m (a ∷ b ∷ c ∷ d ∷ e ∷ f ∷ []) p))
      (decode-encode_explicit m a b c d e f w)
