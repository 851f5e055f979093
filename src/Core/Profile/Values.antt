-- ===== src/Core/Profile/Values.antt =====
-- netd-core/src/profile.rs: the values of a profile, `parse` and what it reads them with. A refusal's
-- message is the path with what is wrong.
use netd.Base.{
  ◌>>=◌, ℕ, suc, Bool, true, false, ◌||◌, not, Option, none, some, List, [], ◌∷◌, map, ltb, leb,
  ◌==◌, if◌then◌else◌, keep_if, map_option, filter,
}
use netd.Base.Net.{IpAddr, is_v4_address}
use netd.Base.Bytes.{bytes_eq, u32_mod}
use netd.Base.Text.{codes, parse_ip, parse_uint, decimal}
use netd.Wire6.Names.{to_ascii_lowercase}
use netd.Core.Hostname.{trim}
use netd.Core.Raw.{ℤ, pos, negsuc, RawValue}
use netd.Core.Profile.{StaticAddress}

pub data Fault : Type 0 where
  bad_key_name : List ℕ → Fault
  enabled_shape : Fault
  unknown_value : List ℕ → Fault
  wrong_shape : List ℕ → Fault
  bad_item : List ℕ → List ℕ → Fault
  below_68 : ℕ → Fault

-- `Result<_, String>`
pub data Result (A : Type 0) : Type 0 where
  ok : A → Result A
  err : List ℕ → Fault → Result A

abbrev pub and_then : {A B : Type 0} → Result A → (A → Result B) → Result B
and_then (ok a) f = f a
and_then (err p e) f = err p e

abbrev pub lower : List ℕ → List ℕ
lower = map to_ascii_lowercase

abbrev pub on_words : List (List ℕ)
on_words = codes "on" ∷ codes "yes" ∷ codes "true" ∷ codes "1" ∷ []

abbrev pub off_words : List (List ℕ)
off_words = codes "off" ∷ codes "no" ∷ codes "false" ∷ codes "0" ∷ []

abbrev pub contains : List (List ℕ) → List ℕ → Bool
contains [] x = false
contains (y ∷ ys) x = bytes_eq x y || contains ys x

unfoldable pub as_bool : RawValue → Option Bool
as_bool (RawValue.int (pos i)) = some (not (i == 0))
as_bool (RawValue.int (negsuc i)) = some true
as_bool (RawValue.str s) =
    if contains on_words (lower s)
    then some true
    else if contains off_words (lower s)
    then some false
    else none
as_bool (RawValue.list items) = none
as_bool RawValue.other = none

unfoldable pub as_u32 : RawValue → Option ℕ
as_u32 (RawValue.int (pos i)) = if ltb i u32_mod then some i else none
as_u32 (RawValue.int (negsuc i)) = none
as_u32 (RawValue.str s) = parse_uint u32_mod (trim s)
as_u32 (RawValue.list items) = none
as_u32 RawValue.other = none

abbrev pub is_empty : {A : Type 0} → List A → Bool
is_empty [] = true
is_empty (x ∷ xs) = false

unfoldable pub as_list : RawValue → Option (List (List ℕ))
as_list (RawValue.list items) = some (filter (λ s. not (is_empty s)) items)
as_list (RawValue.str s) = if is_empty s then some [] else some (s ∷ [])
as_list (RawValue.int i) = none
as_list RawValue.other = none

abbrev pub to_string : ℤ → List ℕ
to_string (pos i) = decimal (suc i) i []
to_string (negsuc i) = b'-' ∷ decimal (suc (suc i)) (suc i) []

unfoldable pub as_str : RawValue → Option (List ℕ)
as_str (RawValue.str s) = some s
as_str (RawValue.int i) = some (to_string i)
as_str (RawValue.list items) = none
as_str RawValue.other = none

abbrev pub max_prefix : IpAddr → ℕ
max_prefix a = if is_v4_address a then 32 else 128

abbrev pub before_slash : List ℕ × List ℕ → ℕ → List ℕ × List ℕ
before_slash (a, p) c = (c ∷ a, p)

-- `split_once('/')`
unfoldable pub split_slash : List ℕ → Option (List ℕ × List ℕ)
split_slash [] = none
split_slash (c ∷ cs) =
    let rest = split_slash cs in
    if c == b'/' then some ([], cs) else map_option (λ r. before_slash r c) rest

unfoldable pub parse_cidr : List ℕ → Option StaticAddress
parse_cidr s = do
  (a, p) ← split_slash s
  address ← parse_ip (trim a)
  prefix ← keep_if (λ n. leb n (max_prefix address)) (parse_uint 256 (trim p))
  some (record { address = address; prefix = prefix })

pub data Word : Type 0 where
  address_offered address_families address_static address_linklocal address_temporary : Word
  address_onexpiry route_offered route_gateway route_metric dns_offered dns_servers : Word
  dns_domains dns_default dns_exclusive hostname_offered hostname_announce : Word
  mtu_offered mtu_value : Word

-- The words as they are written.
abbrev pub vocabulary : List (List ℕ × Word)
vocabulary =
    (codes "address.offered", address_offered)
    ∷ (codes "address.families", address_families)
    ∷ (codes "address.static", address_static)
    ∷ (codes "address.linklocal", address_linklocal)
    ∷ (codes "address.temporary", address_temporary)
    ∷ (codes "address.onexpiry", address_onexpiry)
    ∷ (codes "route.offered", route_offered)
    ∷ (codes "route.gateway", route_gateway)
    ∷ (codes "route.metric", route_metric)
    ∷ (codes "dns.offered", dns_offered)
    ∷ (codes "dns.servers", dns_servers)
    ∷ (codes "dns.domains", dns_domains)
    ∷ (codes "dns.default", dns_default)
    ∷ (codes "dns.exclusive", dns_exclusive)
    ∷ (codes "hostname.offered", hostname_offered)
    ∷ (codes "hostname.announce", hostname_announce)
    ∷ (codes "mtu.offered", mtu_offered)
    ∷ (codes "mtu.value", mtu_value)
    ∷ []

unfoldable pub word_in : List (List ℕ × Word) → List ℕ → Option Word
word_in [] name = none
word_in ((w, word) ∷ ws) name = if bytes_eq name w then some word else word_in ws name

abbrev pub word_of : List ℕ → Option Word
word_of = word_in vocabulary

-- `ok_or_else(|| bad(name))?`
abbrev pub shaped : {A B : Type 0} → List ℕ → List ℕ → Option A → (A → Result B) → Result B
shaped path name none f = err path (wrong_shape name)
shaped path name (some a) f = f a
