-- ===== src/Core/Profile/Sound.antt =====
-- netd-core/src/profile.rs: what every resolved profile satisfies.
use netd.Base.{
  ℕ, ◌≤◌, ◌≡◌, inl, inr, true, false, Option, none, some, List, [], ◌∷◌, arith, ltb, Bool-cases,
  Option-cases, All, All-filter,
}
use mathlib.Core.Path.{subst}
use netd.Base.Net.{IpAddr}
use netd.Base.Bytes.{bytes_eq}
use netd.Base.Text.{codes, parse_ip}
use netd.Core.Hostname.{trim}
use netd.Core.Raw.{RawValue}
use netd.Core.Profile.{AddressConfig, default_address}
use netd.Core.Profile.Values.{
  ok, lower, as_bool, as_u32, as_list, as_str, parse_cidr, Word, address_offered, address_families,
  address_static, address_linklocal, address_temporary, address_onexpiry, route_offered,
  route_gateway, route_metric, dns_offered, dns_servers, dns_domains, dns_default, dns_exclusive,
  hostname_offered, hostname_announce, mtu_offered, mtu_value, word_of, shaped,
}
use netd.Core.Profile.Tree.{
  default_dns, Bundles, take_families, read_items, set_gateway, take_gateways, read_expiry,
  read_mtu, set_address, set_dns, set_value, set_values, is_in_play, retain_statics, parse,
}
use netd.Core.Profile.Items.{
  IsFit, FitsFamily, IsSoundConfig, ok_transport, and_then_each, shaped_each, parse_cidr-FitsFamily,
  read_items-All,
}

take_families-IsSoundConfig :
    (path name : List ℕ) (fs : List (List ℕ)) (a b : AddressConfig)
    → IsSoundConfig a
    → take_families path name fs a ≡ ok b
    → IsSoundConfig b
unfolding take_families
take_families-IsSoundConfig path name [] a b k h = ok_transport IsSoundConfig a b h k
take_families-IsSoundConfig path name (f ∷ fs) a b k h =
    elim (Bool-cases (bytes_eq (lower f) (codes "ipv4"))) [
      | inl e ↦
          take_families-IsSoundConfig path name fs (record a { ipv4 = true }) b k
            (ground (arith, h, e))
      | inr e ↦ elim (Bool-cases (bytes_eq (lower f) (codes "ipv6"))) [
        | inl g ↦
            take_families-IsSoundConfig path name fs (record a { ipv6 = true }) b k
              (ground (arith, h, e, g))
        | inr g ↦ ground (arith, h, e, g)
      ]
    ]

set_gateway-IsSoundConfig :
    (path name : List ℕ) (ip : IpAddr) (a : AddressConfig)
    → IsSoundConfig a
    → IsSoundConfig (set_gateway path name ip a)
set_gateway-IsSoundConfig path name (IpAddr.v4 g) a k = k
set_gateway-IsSoundConfig path name (IpAddr.v6 g) a k = k

take_gateways-IsSoundConfig :
    (path name : List ℕ) (gs : List (List ℕ)) (a b : AddressConfig)
    → IsSoundConfig a
    → take_gateways path name gs a ≡ ok b
    → IsSoundConfig b
unfolding take_gateways
take_gateways-IsSoundConfig path name [] a b k h = ok_transport IsSoundConfig a b h k
take_gateways-IsSoundConfig path name (g ∷ gs) a b k h = elim (Option-cases (parse_ip (trim g))) [
  | inl n ↦ ground (arith, h, n)
  | inr (ip, e) ↦
      take_gateways-IsSoundConfig path name gs (set_gateway path name ip a) b
        (set_gateway-IsSoundConfig path name ip a k) (rw (e, take_gateways) at h)
]

read_mtu-IsFit : (path name : List ℕ) (n m : ℕ) → read_mtu path name n ≡ ok m → IsFit (some m)
read_mtu-IsFit path name n m h = elim (Bool-cases (ltb n 68)) [
  | inl e ↦ ground (arith, h, e)
  | inr e ↦
      let same : n ≡ m = ground (arith, h, e) in
      let large : 68 ≤ n = ground (arith, e) in subst (λ x. 68 ≤ x) same large
]

module _ (path name : List ℕ) (v : RawValue) (a b : AddressConfig) (k : IsSoundConfig a) where
  -- A value that is no part of what is kept sound.
  aside :
      {A : Type 0} (o : Option A) (f : A → AddressConfig)
      → ((x : A) → IsSoundConfig (f x))
      → shaped path name o (λ x. ok (f x)) ≡ ok b
      → IsSoundConfig b
  aside o f each =
      shaped_each IsSoundConfig path name o (λ x. ok (f x)) b
        (λ x e h. ok_transport IsSoundConfig (f x) b h (each x))

  set_address-IsSoundConfig : (w : Word) → set_address path name w v a ≡ ok b → IsSoundConfig b
  unfolding set_address
  set_address-IsSoundConfig address_offered h =
      aside (as_bool v) (λ x. record a { offered = x }) (λ x. k) h
  set_address-IsSoundConfig address_families h =
      shaped_each IsSoundConfig path name (as_list v) _ b
        (λ l e.
          take_families-IsSoundConfig path name l (record a { ipv4 = false; ipv6 = false }) b k)
        h
  set_address-IsSoundConfig address_static h =
      shaped_each IsSoundConfig path name (as_list v) _ b
        (λ l e.
          and_then_each IsSoundConfig (read_items path name parse_cidr l)
            (λ s. ok (record a { statics = s })) b
            (λ s ran same.
              ok_transport IsSoundConfig (record a { statics = s }) b same
                (
                  k.0,
                  read_items-All FitsFamily path name parse_cidr parse_cidr-FitsFamily l s ran,
                )))
        h
  set_address-IsSoundConfig address_linklocal h =
      aside (as_bool v) (λ x. record a { link_local = x }) (λ x. k) h
  set_address-IsSoundConfig address_temporary h =
      aside (as_bool v) (λ x. record a { temporary = x }) (λ x. k) h
  set_address-IsSoundConfig address_onexpiry h =
      shaped_each IsSoundConfig path name (as_str v) _ b
        (λ s e.
          and_then_each IsSoundConfig (read_expiry path name s)
            (λ x. ok (record a { on_expiry = x })) b
            (λ x ran same. ok_transport IsSoundConfig (record a { on_expiry = x }) b same k))
        h
  set_address-IsSoundConfig route_offered h =
      aside (as_bool v) (λ x. record a { route_offered = x }) (λ x. k) h
  set_address-IsSoundConfig route_gateway h =
      shaped_each IsSoundConfig path name (as_list v) _ b
        (λ l e.
          take_gateways-IsSoundConfig path name l (record a { gateway = none; gateway6 = none }) b
            k)
        h
  set_address-IsSoundConfig route_metric h =
      aside (as_u32 v) (λ x. record a { route_metric = some x }) (λ x. k) h
  set_address-IsSoundConfig mtu_offered h =
      aside (as_bool v) (λ x. record a { mtu_offered = x }) (λ x. k) h
  set_address-IsSoundConfig mtu_value h =
      shaped_each IsSoundConfig path name (as_u32 v) _ b
        (λ n e.
          and_then_each IsSoundConfig (read_mtu path name n) (λ m. ok (record a { mtu = some m })) b
            (λ m ran same.
              ok_transport IsSoundConfig (record a { mtu = some m }) b same
                (read_mtu-IsFit path name n m ran, k.1)))
        h
  set_address-IsSoundConfig hostname_announce h =
      aside (as_bool v) (λ x. record a { announce_hostname = x }) (λ x. k) h
  set_address-IsSoundConfig hostname_offered h =
      aside (as_bool v) (λ x. record a { accept_hostname = x }) (λ x. k) h
  set_address-IsSoundConfig dns_offered h = ok_transport IsSoundConfig a b h k
  set_address-IsSoundConfig dns_servers h = ok_transport IsSoundConfig a b h k
  set_address-IsSoundConfig dns_domains h = ok_transport IsSoundConfig a b h k
  set_address-IsSoundConfig dns_default h = ok_transport IsSoundConfig a b h k
  set_address-IsSoundConfig dns_exclusive h = ok_transport IsSoundConfig a b h k

set_value-IsSoundConfig :
    (path name : List ℕ) (v : RawValue) (c b : Bundles)
    → IsSoundConfig c.0
    → set_value path name v c ≡ ok b
    → IsSoundConfig b.0
unfolding set_value
set_value-IsSoundConfig path name v (a, d) b k h = elim (Option-cases (word_of name)) [
  | inl n ↦ ground (arith, h, n)
  | inr (w, e) ↦
      and_then_each (λ (x : Bundles). IsSoundConfig x.0) (set_address path name w v a) _ b
        (λ a' ran rest.
          and_then_each (λ (x : Bundles). IsSoundConfig x.0) (set_dns path name w v d)
            (λ d'. ok (a', d')) b
            (λ d' _ same.
              ok_transport (λ (x : Bundles). IsSoundConfig x.0) (a', d') b same
                (set_address-IsSoundConfig path name v a a' k w ran))
            rest)
        (rw (e, set_value) at h)
]

set_values-IsSoundConfig :
    (path : List ℕ) (vs : List (List ℕ × RawValue)) (c b : Bundles)
    → IsSoundConfig c.0
    → set_values path vs c ≡ ok b
    → IsSoundConfig b.0
unfolding set_values
set_values-IsSoundConfig path [] c b k h = ok_transport (λ (x : Bundles). IsSoundConfig x.0) c b h k
set_values-IsSoundConfig path ((name, v) ∷ vs) c b k h =
    and_then_each (λ (x : Bundles). IsSoundConfig x.0) (set_value path name v c)
      (set_values path vs) b
      (λ x ran rest.
        set_values-IsSoundConfig path vs x b (set_value-IsSoundConfig path name v c x k ran) rest)
      h

-- The MTU of a profile is 68 at least, where it is set, and each static address is of a family that the
-- profile deals in, with a prefix that is no longer than the address.
abbrev pub IsSound : AddressConfig → Type 0
IsSound a = IsFit a.mtu × All (λ s. FitsFamily s × (is_in_play a s ≡ true)) a.statics

pub parse-IsSound :
    (path : List ℕ) (values : List (List ℕ × RawValue)) (c : Bundles)
    → parse path values ≡ ok c
    → IsSound c.0
unfolding parse
parse-IsSound path values c h =
    and_then_each (λ (x : Bundles). IsSound x.0)
      (set_values path values (default_address, default_dns)) (λ x. ok (retain_statics x)) c
      (λ x ran same.
        let sound =
          set_values-IsSoundConfig path values (default_address, default_dns) x (tt, tt) ran in
        ok_transport (λ (y : Bundles). IsSound y.0) (retain_statics x) c same
          (sound.0, All-filter FitsFamily (is_in_play x.0) x.0.statics sound.1))
      h
