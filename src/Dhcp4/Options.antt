-- ===== src/Dhcp4/Options.antt =====
-- dhcp4/src/packet.rs: `MessageType`, and the option list with its typed readers. An `Ipv4Addr` is
-- its 32-bit number, the first octet highest; a `String` is the list of its bytes.
use netd.Base.{
  ℕ, Option, none, some, List, [], ◌∷◌, ◌++◌, leb, ◌==◌, if◌then◌else◌, ◌>>=◌, length, get_or_else,
  map_option, keep_if,
}
use netd.Base.Bytes.{from_be16, from_be32, byte_at}
use netd.Base.Utf8.{from_utf8}
use netd.Dhcp4.Code

abbrev pub Ipv4Addr : Type 0
Ipv4Addr = ℕ

abbrev pub unspecified : Ipv4Addr
unspecified = 0

pub data MessageType : Type 0 where
  discover offer request decline ack nak release inform : MessageType

-- `kind as u8`
abbrev pub as_u8 : MessageType → ℕ
as_u8 discover = 1
as_u8 offer = 2
as_u8 request = 3
as_u8 decline = 4
as_u8 ack = 5
as_u8 nak = 6
as_u8 release = 7
as_u8 inform = 8

unfoldable pub from_u8 : ℕ → Option MessageType
from_u8 v =
    if v == 1
    then some discover
    else if v == 2
    then some offer
    else if v == 3
    then some request
    else if v == 4
    then some decline
    else if v == 5
    then some ack
    else if v == 6
    then some nak
    else if v == 7
    then some release
    else if v == 8
    then some inform
    else none

abbrev pub Options : Type 0
Options = List (ℕ × List ℕ)

-- The first occurrence of a code wins.
unfoldable pub get : ℕ → Options → Option (List ℕ)
get code [] = none
get code ((c, v) ∷ o) = if c == code then some v else get code o

abbrev pub push : Options → ℕ → List ℕ → Options
push o code v = o ++ ((code, v) ∷ [])

abbrev first : List ℕ → Option ℕ
first [] = none
first (b ∷ bs) = some b

unfoldable pub message_type : Options → Option MessageType
message_type o = do v ← get Code.message_type o; b ← first v; from_u8 b

-- The first four bytes.
unfoldable pub ipv4_at : List ℕ → Option Ipv4Addr
ipv4_at v =
    if leb 4 (length v)
    then some (from_be32 (byte_at v 0) (byte_at v 1) (byte_at v 2) (byte_at v 3))
    else none

unfoldable pub ipv4 : ℕ → Options → Option Ipv4Addr
ipv4 code o = do v ← get code o; ipv4_at v

-- The whole chunks of four bytes, `as_chunks::<4>().0`.
unfoldable pub ipv4_chunks : List ℕ → List Ipv4Addr
ipv4_chunks (a ∷ b ∷ c ∷ d ∷ rest) = from_be32 a b c d ∷ ipv4_chunks rest
ipv4_chunks _ = []

unfoldable pub ipv4_list : ℕ → Options → List Ipv4Addr
ipv4_list code o = get_or_else (map_option ipv4_chunks (get code o)) []

abbrev u32_of : List ℕ → ℕ
u32_of v = from_be32 (byte_at v 0) (byte_at v 1) (byte_at v 2) (byte_at v 3)

unfoldable pub u32 : ℕ → Options → Option ℕ
u32 code o = map_option u32_of (keep_if (λ v. length v == 4) (get code o))

abbrev u16_of : List ℕ → ℕ
u16_of v = from_be16 (byte_at v 0) (byte_at v 1)

unfoldable pub u16 : ℕ → Options → Option ℕ
u16 code o = map_option u16_of (keep_if (λ v. length v == 2) (get code o))

-- The bytes before the first zero byte: `position(|&b| b == 0)`, and the slice up to it.
before_zero : List ℕ → List ℕ
before_zero [] = []
before_zero (b ∷ bs) = if b == 0 then [] else b ∷ before_zero bs

-- A text with its terminator and what follows cut off, if it is UTF-8.
unfoldable pub string : ℕ → Options → Option (List ℕ)
unfolding before_zero
string code o = do v ← get code o; from_utf8 (before_zero v)
