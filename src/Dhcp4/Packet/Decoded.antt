-- ===== src/Dhcp4/Packet/Decoded.antt =====
-- What `decode` yields on any bytes (dhcp4/src/packet.rs).
use netd.Base.{
  ℕ, zero, suc, ◌+◌, ◌≤◌, ◌<◌, ◌≡◌, ap, ◌∙◌, ◌≢◌, inl, inr, none, some, List, [], ◌∷◌, arith, ◌==◌,
  Bool-cases, Option-cases, done, stuck, run_or-done, length, drop, All, All-append, All-drop,
  length-take, length-drop,
}
use mathlib.Core.Path.{subst}
use netd.Base.Bytes.{split-some, byte_at, from_be16, IsByte, IsBytes, u16_mod, u32_mod}
use netd.Dhcp4.Code
use netd.Dhcp4.Options.{Options, push}
use netd.Dhcp4.Packet.{
  Message, encode, decode, take_data, options_loop, decode_options, ipv4_of, message_of,
}
use netd.Dhcp4.Packet.RoundTrip.{IsOption, IsWire, decode-encode}

take_data_shape :
    (rest v rest' : List ℕ)
    → IsBytes rest
    → take_data rest ≡ some (v, rest')
    → (length v ≤ 255) × (length rest' < length rest) × IsBytes rest'
unfolding take_data
take_data_shape [] v rest' b h = cc
take_data_shape (len ∷ rest) v rest' b h =
    let (fits, ev, er) = split-some len rest v rest' h in
    (
      rw ev (omega (arith, length-take len rest)),
      rw er (omega (arith, length-drop len rest)),
      rw er (All-drop IsByte len rest b.1),
    )

-- A data and the bytes behind it are shorter than what they were taken from.
take_data_shorter :
    (rest v rest' : List ℕ) → take_data rest ≡ some (v, rest') → length rest' < length rest
unfolding take_data
take_data_shorter [] v rest' h = cc
take_data_shorter (len ∷ rest) v rest' h =
    rw ((split-some len rest v rest' h).2) (omega (arith, length-drop len rest))

options_loop-ne-stuck :
    (fuel : ℕ) (bytes : List ℕ) (o : Options)
    → length bytes ≤ fuel
    → options_loop fuel bytes o ≢ stuck
unfolding options_loop
options_loop-ne-stuck fuel [] o h = λ e. cc
options_loop-ne-stuck zero (code ∷ rest) o h = absurd (omega arith)
options_loop-ne-stuck (suc fuel) (code ∷ rest) o h = elim (Option-cases (take_data rest)) [
  | inl e ↦ rw e (ground (arith, options_loop-ne-stuck fuel rest o))
  | inr ((v, rest'), e) ↦ rw e (
      ground (
        arith,
        options_loop-ne-stuck fuel rest o,
        take_data_shorter rest v rest' e,
        options_loop-ne-stuck fuel rest' (push o code v),
      ))
]

options_loop-IsOption :
    (fuel : ℕ) (bytes : List ℕ) (o r : Options)
    → IsBytes bytes
    → All IsOption o
    → options_loop fuel bytes o ≡ done (some r)
    → All IsOption r
unfolding options_loop
options_loop-IsOption fuel [] o r b ok h = subst (All IsOption) (ground arith) ok
options_loop-IsOption zero (code ∷ rest) o r b ok h = cc
options_loop-IsOption (suc fuel) (code ∷ rest) o r b ok h = elim (Bool-cases (code == Code.pad)) [
  | inl p ↦ options_loop-IsOption fuel rest o r b.1 ok (ground arith)
  | inr p ↦ elim (Bool-cases (code == Code.end)) [
    | inl q ↦ subst (All IsOption) (ground arith) ok
    | inr q ↦ elim (Option-cases (take_data rest)) [
      | inl e ↦ absurd (ground (arith, e))
      | inr ((v, rest'), e) ↦
          let (short, less, b') = take_data_shape rest v rest' b.1 e in
          options_loop-IsOption fuel rest' (push o code v) r b'
            (All-append IsOption o ((code, v) ∷ []) ok (((ground arith, ground arith, short), tt)))
            (ground (arith, e))
    ]
  ]
]

-- `decode` ends on every input: its loop never runs out of fuel.
pub decode_options-returns :
    (bytes : List ℕ) → options_loop (length bytes) bytes [] ≡ done (decode_options bytes)
unfolding decode_options
decode_options-returns bytes =
    run_or-done none (options_loop (length bytes) bytes [])
      (options_loop-ne-stuck (length bytes) bytes [] (omega arith))

decode_options-IsOption :
    (bytes : List ℕ) (r : Options) → IsBytes bytes → decode_options bytes ≡ some r → All IsOption r
decode_options-IsOption bytes r b h =
    options_loop-IsOption (length bytes) bytes [] r b tt (decode_options-returns bytes ∙ ap done h)

byte_at-lt : (v : List ℕ) (i : ℕ) → IsBytes v → byte_at v i < 256
byte_at-lt [] i b = omega arith
byte_at-lt (x ∷ v) zero b = b.0
byte_at-lt (x ∷ v) (suc i) b = byte_at-lt v i b.1

ipv4_of-lt : (v : List ℕ) (i : ℕ) → IsBytes v → ipv4_of v i < u32_mod
unfolding ipv4_of
ipv4_of-lt v i b = omega (
  arith,
  byte_at-lt v i b,
  byte_at-lt v (i + 1) b,
  byte_at-lt v (i + 2) b,
  byte_at-lt v (i + 3) b,
)

from_be16-lt : (v : List ℕ) (i j : ℕ) → IsBytes v → from_be16 (byte_at v i) (byte_at v j) < u16_mod
from_be16-lt v i j b = omega (arith, byte_at-lt v i b, byte_at-lt v j b)

message_of-IsWire :
    (bytes : List ℕ) (o : Options)
    → IsBytes bytes
    → 240 ≤ length bytes
    → All IsOption o
    → IsWire (message_of bytes o)
unfolding message_of
message_of-IsWire bytes o b h ok = record {
  xid_fits = ipv4_of-lt bytes 4 b;
  secs_fits = from_be16-lt bytes 8 9 b;
  ciaddr_fits = ipv4_of-lt bytes 12 b;
  yiaddr_fits = ipv4_of-lt bytes 16 b;
  siaddr_fits = ipv4_of-lt bytes 20 b;
  giaddr_fits = ipv4_of-lt bytes 24 b;
  chaddr_six = omega (arith, length-take 6 (drop 28 bytes), length-drop 28 bytes);
  options_fit = ok;
}

decode-some :
    (bytes : List ℕ) (m : Message) (o : Options)
    → decode_options (drop 240 bytes) ≡ some o
    → decode bytes ≡ some m
    → (240 ≤ length bytes) × (m ≡ message_of bytes o)
unfolding decode
decode-some bytes m o e h = ground (arith, e)

decode-none : (bytes : List ℕ) → decode_options (drop 240 bytes) ≡ none → decode bytes ≡ none
unfolding decode
decode-none bytes e = ground (arith, e)

-- Whatever bytes come in, a message that `decode` yields fits its types: six bytes of hardware
-- address, words in range, and options of at most 255 bytes that are neither padding nor end.
pub decode-IsWire :
    (bytes : List ℕ) (m : Message) → IsBytes bytes → decode bytes ≡ some m → IsWire m
decode-IsWire bytes m b h = elim (Option-cases (decode_options (drop 240 bytes))) [
  | inl e ↦ absurd (cc (decode-none bytes e))
  | inr (o, e) ↦
      let (long, same) = decode-some bytes m o e h in
      rw same (
        message_of-IsWire bytes o b long
          (decode_options-IsOption (drop 240 bytes) o (All-drop IsByte 240 bytes b) e))
]

-- So what was decoded is decoded again, to the same message, from its own encoding.
pub decode-encode-decode :
    (bytes : List ℕ) (m : Message)
    → IsBytes bytes
    → decode bytes ≡ some m
    → decode (encode m) ≡ some m
decode-encode-decode bytes m b h = decode-encode m (decode-IsWire bytes m b h)
