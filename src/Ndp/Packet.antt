-- ===== src/Ndp/Packet.antt =====
-- ndp/src/packet.rs: router solicitations out, router advertisements in. The lists of servers and of
-- names are in Wire6.
pub mod Bounds
use netd.Base.{
  ℕ, zero, suc, ◌+◌, ◌-◌, ◌*◌, ◌/◌, ◌%◌, ◌^◌, ◌≤◌, ◌<◌, min, max, bit_and, bit_or, bit_xor, ◌≡◌,
  refl, sym, ap, ◌∙◌, ◌≢◌, ◌⊎◌, ◌↔◌, inl, inr, Bool, true, false, ◌&&◌, ◌||◌, not, Option, none,
  some, List, [], ◌∷◌, ◌++◌, map, arith, ltb, leb, ◌==◌, if◌then◌else◌, ltb→lt, lt→ltb, leb→le,
  le→leb, ==_iff, Bool-cases, Option-cases, get_or_else, is_some, or_else, keep_if, map_option,
  ◌>>=◌, ◌>>◌, guard, Loop, done, stuck, run_or, run_or-done, length, get_elem?, get_or, take, drop,
  replicate, All, All-append, All-take, All-drop, All-replicate, take-append, drop-append,
  length-append, length-take, length-drop, length-replicate, length-map,
}
use netd.Base.Bytes.{from_be16, from_be32, byte_at}
use netd.Wire6.{Ipv6Addr, ipv6_of, is_multicast, servers}
use netd.Wire6.Names.{domain_list}

abbrev pub router_solicit : ℕ
router_solicit = 133

abbrev pub router_advert : ℕ
router_advert = 134

abbrev pub option_source_lla : ℕ
option_source_lla = 1

abbrev pub option_prefix_info : ℕ
option_prefix_info = 3

abbrev pub option_mtu : ℕ
option_mtu = 5

abbrev pub option_rdnss : ℕ
option_rdnss = 25

abbrev pub option_dnssl : ℕ
option_dnssl = 31

abbrev pub max_prefixes : ℕ
max_prefixes = 16

pub record PrefixInfo : Type 0 where
  pub prefix : Ipv6Addr
  pub length : ℕ
  pub on_link : Bool
  pub autonomous : Bool
  pub valid : ℕ
  pub preferred : ℕ

pub record Rdnss : Type 0 where
  pub lifetime : ℕ
  pub servers : List Ipv6Addr

pub record Dnssl : Type 0 where
  pub lifetime : ℕ
  pub domains : List (List ℕ)

pub record RouterAdvert : Type 0 where
  pub managed : Bool
  pub other_config : Bool
  pub router_lifetime : ℕ
  pub mtu : Option ℕ
  pub prefixes : List PrefixInfo
  pub rdnss : List Rdnss
  pub dnssl : List Dnssl

-- `b & 0x80 != 0` and `b & 0x40 != 0`.
abbrev pub has_flag : ℕ → ℕ → Bool
has_flag b flag = not (bit_and b flag == 0)

-- The big-endian word at `i`.
abbrev pub word_at : List ℕ → ℕ → ℕ
word_at v i = from_be32 (byte_at v i) (byte_at v (i + 1)) (byte_at v (i + 2)) (byte_at v (i + 3))

-- fe80::/10
abbrev pub is_link_local : Ipv6Addr → Bool
is_link_local a = bit_and (a / 2 ^ 112) 0xffc0 == 0xfe80

unfoldable pub prefix_info : List ℕ → Option PrefixInfo
prefix_info option =
    let prefix = ipv6_of (take 16 (drop 16 option)) in
    if not (length option == 32)
    then none
    else if ltb 128 (byte_at option 2)
    then none
    else if is_multicast prefix || is_link_local prefix
    then none
    else some (record {
      prefix = prefix;
      length = byte_at option 2;
      on_link = has_flag (byte_at option 3) 0x80;
      autonomous = has_flag (byte_at option 3) 0x40;
      valid = word_at option 4;
      preferred = word_at option 8;
    })

unfoldable pub rdnss : List ℕ → Option Rdnss
rdnss option =
    if ltb (length option) 24 || not ((length option - 8) % 16 == 0)
    then none
    else some (record { lifetime = word_at option 4; servers = servers (drop 8 option) })

unfoldable pub dnssl : List ℕ → Option Dnssl
dnssl option =
    if ltb (length option) 16
    then none
    else some (record { lifetime = word_at option 4; domains = domain_list (drop 8 option) })

-- `if let Some(x) = … { list.push(x) }`
abbrev pub pushed : {A : Type 0} → List A → Option A → List A
pushed xs none = xs
pushed xs (some x) = xs ++ (x ∷ [])

-- The `match` on the kind of an option.
unfoldable pub take_option : ℕ → List ℕ → RouterAdvert → RouterAdvert
take_option kind option ra =
    if kind == option_prefix_info && ltb (length ra.prefixes) max_prefixes
    then record ra { prefixes = pushed ra.prefixes (prefix_info option) }
    else if kind == option_mtu && length option == 8
    then record ra { mtu = some (word_at option 4) }
    else if kind == option_rdnss
    then record ra { rdnss = pushed ra.rdnss (rdnss option) }
    else if kind == option_dnssl
    then record ra { dnssl = pushed ra.dnssl (dnssl option) }
    else ra

-- The `while` loop; `none` is its `return None`. Every round takes eight bytes at least, so fuel beyond
-- the number of bytes is never used up.
unfoldable pub options_loop : ℕ → List ℕ → RouterAdvert → Loop (Option RouterAdvert)
options_loop zero rest ra = stuck
options_loop (suc fuel) rest ra =
    let len = byte_at rest 1 * 8 in
    let more =
      options_loop fuel (drop len rest) (take_option (byte_at rest 0) (take len rest) ra) in
    if length rest == 0
    then done (some ra)
    else if ltb (length rest) 2
    then done none
    else if len == 0 || ltb (length rest) len
    then done none
    else more

-- What the sixteen bytes at the front say.
abbrev pub header : List ℕ → RouterAdvert
header body = record {
  managed = has_flag (byte_at body 5) 0x80;
  other_config = has_flag (byte_at body 5) 0x40;
  router_lifetime = from_be16 (byte_at body 6) (byte_at body 7);
  mtu = none;
  prefixes = [];
  rdnss = [];
  dnssl = [];
}

unfoldable pub decode : List ℕ → Loop (Option RouterAdvert)
decode body =
    let rest = drop 16 body in
    if ltb (length body) 16 || (not (byte_at body 0 == router_advert) || not (byte_at body 1 == 0))
    then done none
    else options_loop (length rest + 1) rest (header body)

unfoldable pub solicit : Option (List ℕ) → List ℕ
solicit source_mac =
    (router_solicit ∷ replicate 7 0)
    ++ (elim source_mac [ none ↦ [] | some mac ↦ option_source_lla ∷ 1 ∷ mac ])
