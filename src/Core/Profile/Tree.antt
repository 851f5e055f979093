-- ===== src/Core/Profile/Tree.antt =====
-- netd-core/src/profile.rs: `parse`, and the profiles of a tree of keys.
use netd.Base.{
  ℕ, Bool, true, false, ◌&&◌, ◌||◌, not, Option, none, some, List, [], ◌∷◌, ◌++◌, ltb, ◌==◌,
  if◌then◌else◌, is_some, filter,
}
use netd.Base.Net.{IpAddr, is_v4_address}
use netd.Base.BtreeMap.{insert}
use netd.Base.Bytes.{bytes_eq}
use netd.Base.Text.{codes, parse_ip}
use netd.Core.Hostname.{trim}
use netd.Core.Raw.{RawValue, RawKey, RawKeys, raw_key, no_keys, one_more}
use netd.Core.Profile.{OnExpiry, StaticAddress, AddressConfig, default_address, DnsConfig, Profile}
use netd.Core.Profile.Values.{
  bad_key_name, unknown_value, bad_item, below_68, Result, ok, err, and_then, lower, as_bool,
  as_u32, as_list, as_str, parse_cidr, Word, address_offered, address_families, address_static,
  address_linklocal, address_temporary, address_onexpiry, route_offered, route_gateway,
  route_metric, dns_offered, dns_servers, dns_domains, dns_default, dns_exclusive, hostname_offered,
  hostname_announce, mtu_offered, mtu_value, word_of, shaped, is_empty,
}

abbrev pub default_dns : DnsConfig
default_dns = record {
  servers = [];
  domains = [];
  offered = false;
  default_route = none;
  exclusive = false;
}

abbrev pub text_key : List ℕ → List ℕ
text_key k = k

abbrev pub Bundles : Type 0
Bundles = AddressConfig × DnsConfig

module _ (path : List ℕ) (name : List ℕ) where
  unfoldable pub take_families : List (List ℕ) → AddressConfig → Result AddressConfig
  take_families [] a = ok a
  take_families (f ∷ fs) a =
      let v4 = take_families fs (record a { ipv4 = true }) in
      let v6 = take_families fs (record a { ipv6 = true }) in
      if bytes_eq (lower f) (codes "ipv4")
      then v4
      else if bytes_eq (lower f) (codes "ipv6")
      then v6
      else err path (bad_item name f)

  -- `map` to a reader and `collect`.
  unfoldable pub read_items : {A : Type 0} → (List ℕ → Option A) → List (List ℕ) → Result (List A)
  read_items read [] = ok []
  read_items read (s ∷ ss) = elim (read s) [
    | none ↦ err path (bad_item name s)
    | some a ↦ and_then (read_items read ss) (λ as'. ok (a ∷ as'))
  ]

  abbrev pub set_gateway : IpAddr → AddressConfig → AddressConfig
  set_gateway (IpAddr.v4 g) a = record a { gateway = some g }
  set_gateway (IpAddr.v6 g) a = record a { gateway6 = some g }

  unfoldable pub take_gateways : List (List ℕ) → AddressConfig → Result AddressConfig
  take_gateways [] a = ok a
  take_gateways (g ∷ gs) a = elim (parse_ip (trim g)) [
    | none ↦ err path (bad_item name g)
    | some ip ↦ take_gateways gs (set_gateway ip a)
  ]

  abbrev pub read_expiry : List ℕ → Result OnExpiry
  read_expiry s =
      if bytes_eq (lower s) (codes "drop")
      then ok OnExpiry.drop
      else if bytes_eq (lower s) (codes "keep")
      then ok OnExpiry.keep
      else err path (bad_item name s)

  abbrev pub read_mtu : ℕ → Result ℕ
  read_mtu v = if ltb v 68 then err path (below_68 v) else ok v

  -- The branch of the `match` for an address value.
  unfoldable pub set_address : Word → RawValue → AddressConfig → Result AddressConfig
  set_address address_offered v a =
      shaped path name (as_bool v) (λ b. ok (record a { offered = b }))
  set_address address_families v a =
      shaped path name (as_list v) (λ l. take_families l (record a { ipv4 = false; ipv6 = false }))
  set_address address_static v a =
      shaped path name (as_list v)
        (λ l. and_then (read_items parse_cidr l) (λ s. ok (record a { statics = s })))
  set_address address_linklocal v a =
      shaped path name (as_bool v) (λ b. ok (record a { link_local = b }))
  set_address address_temporary v a =
      shaped path name (as_bool v) (λ b. ok (record a { temporary = b }))
  set_address address_onexpiry v a =
      shaped path name (as_str v)
        (λ s. and_then (read_expiry s) (λ e. ok (record a { on_expiry = e })))
  set_address route_offered v a =
      shaped path name (as_bool v) (λ b. ok (record a { route_offered = b }))
  set_address route_gateway v a =
      shaped path name (as_list v)
        (λ l. take_gateways l (record a { gateway = none; gateway6 = none }))
  set_address route_metric v a =
      shaped path name (as_u32 v) (λ n. ok (record a { route_metric = some n }))
  set_address mtu_offered v a =
      shaped path name (as_bool v) (λ b. ok (record a { mtu_offered = b }))
  set_address mtu_value v a =
      shaped path name (as_u32 v) (λ n. and_then (read_mtu n) (λ m. ok (record a { mtu = some m })))
  set_address hostname_announce v a =
      shaped path name (as_bool v) (λ b. ok (record a { announce_hostname = b }))
  set_address hostname_offered v a =
      shaped path name (as_bool v) (λ b. ok (record a { accept_hostname = b }))
  set_address _ v a = ok a

  -- The branch for a value of name resolution.
  unfoldable pub set_dns : Word → RawValue → DnsConfig → Result DnsConfig
  set_dns dns_offered v d = shaped path name (as_bool v) (λ b. ok (record d { offered = b }))
  set_dns dns_servers v d =
      shaped path name (as_list v)
        (λ l. and_then (read_items (λ s. parse_ip (trim s)) l) (λ s. ok (record d { servers = s })))
  set_dns dns_domains v d = shaped path name (as_list v) (λ l. ok (record d { domains = l }))
  set_dns dns_default v d =
      shaped path name (as_bool v) (λ b. ok (record d { default_route = some b }))
  set_dns dns_exclusive v d = shaped path name (as_bool v) (λ b. ok (record d { exclusive = b }))
  set_dns _ v d = ok d

  unfoldable pub set_value : RawValue → Bundles → Result Bundles
  set_value v (a, d) = elim (word_of name) [
    | none ↦ err path (unknown_value name)
    | some w ↦ and_then (set_address w v a) (λ a'. and_then (set_dns w v d) (λ d'. ok (a', d')))
  ]

-- The family switch wins.
abbrev pub is_in_play : AddressConfig → StaticAddress → Bool
is_in_play a s = if is_v4_address s.address then a.ipv4 else a.ipv6

abbrev pub retain_statics : Bundles → Bundles
retain_statics (a, d) = (record a { statics = filter (is_in_play a) a.statics }, d)

module _ (path : List ℕ) where
  -- The `for` loop.
  unfoldable pub set_values : List (List ℕ × RawValue) → Bundles → Result Bundles
  set_values [] c = ok c
  set_values ((name, v) ∷ vs) c = and_then (set_value path name v c) (set_values vs)

  unfoldable pub parse : List (List ℕ × RawValue) → Result Bundles
  parse values =
      and_then (set_values values (default_address, default_dns)) (λ c. ok (retain_statics c))

  -- The loop over a key's own values: what holds here, and whether it is enabled.
  unfoldable pub own_values :
      List (List ℕ × RawValue)
      → List (List ℕ × RawValue)
      → Bool
      → Result (List (List ℕ × RawValue) × Bool)
  own_values [] effective enabled = ok (effective, enabled)
  own_values ((name, v) ∷ vs) effective enabled =
      let more = own_values vs (insert text_key (lower name) v effective) enabled in
      if bytes_eq (lower name) (codes "enabled")
      then shaped path name (as_bool v) (λ b. own_values vs effective (enabled && b))
      else if not (is_some (word_of (lower name)))
      then err path (unknown_value name)
      else more

unfoldable pub has_char : ℕ → List ℕ → Bool
has_char x [] = false
has_char x (c ∷ cs) = c == x || has_char x cs

abbrev pub is_bad_name : List ℕ → Bool
is_bad_name name = is_empty name || (has_char b'/' name || has_char b'\\' name)

abbrev pub path_of : List ℕ → List ℕ → List ℕ
path_of parent name = if is_empty parent then name else parent ++ (b'/' ∷ name)

abbrev pub Profiles : Type 0
Profiles = List (List ℕ × Profile)

-- The profile of a key.
unfoldable pub add_profile : List ℕ → List (List ℕ × RawValue) → Bool → Profiles → Result Profiles
add_profile path effective enabled out = and_then (parse path effective) (λ c.
    let p : Profile = record { path = path; enabled = enabled; address = c.0; dns = c.1 } in
    ok (insert text_key (lower path) p out))

unfoldable mutual
  pub walk : RawKey → List ℕ → List (List ℕ × RawValue) → Bool → Profiles → Result Profiles
  walk (raw_key name values children) parent inherited parent_enabled out =
      let path = path_of parent name in
      if is_bad_name name
      then err parent (bad_key_name name)
      else and_then (own_values path values inherited parent_enabled) (λ own.
        and_then (add_profile path own.0 own.1 out)
          (λ more. walk_all children path own.0 own.1 more))

  -- The children, in order.
  pub walk_all : RawKeys → List ℕ → List (List ℕ × RawValue) → Bool → Profiles → Result Profiles
  walk_all no_keys path effective enabled out = ok out
  walk_all (one_more key keys) path effective enabled out =
      and_then (walk key path effective enabled out)
        (λ more. walk_all keys path effective enabled more)

unfoldable pub resolve : RawKey → Result Profiles
resolve (raw_key name values children) = walk_all children [] [] true []
