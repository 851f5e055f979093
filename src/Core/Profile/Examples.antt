-- ===== src/Core/Profile/Examples.antt =====
-- Runs of the model of netd-core/src/profile.rs at concrete inputs.
use netd.Base.{
  ℕ, ◌+◌, ◌*◌, ◌^◌, ◌≡◌, refl, Bool, true, false, none, some, List, [], ◌∷◌, or_else, All,
}
use netd.Base.Net.{IpAddr}
use netd.Base.Bytes.{bytes_eq, less}
use netd.Base.BtreeMap.{get, insert}
use netd.Base.Text.{
  codes, digits, read_number, read_ipv4, read_groups, of_groups, read_ipv6, parse_ip, parse_uint,
}
use netd.Core.Hostname.{trim_start, trim_end}
use netd.Core.Raw.{pos, RawValue, RawKey, raw_key, no_keys, one_more}
use netd.Core.Profile.Values.{
  Result, ok, err, as_bool, as_u32, as_list, split_slash, parse_cidr, word_in,
}
use netd.Core.Profile.Tree.{
  text_key, read_items, set_address, set_dns, set_value, set_values, parse, own_values, has_char,
  Profiles, add_profile, walk, resolve,
}
use netd.Core.Profile.Sound.{IsSound}
use netd.Core.Profile.Resolved.{Disabled, resolve-IsSound, walk-Disabled}
use netd.Core.Profile.Inherited.{last_named, own_values-get}

-- fe80::1, ::ffff:1.2.3.4, and one group too many.
reads_link_local : parse_ip (codes "fe80::1") ≡ some (IpAddr.v6 (0xfe80 * 2 ^ 112 + 1))
unfolding parse_ip read_ipv4 read_ipv6 read_groups read_number digits of_groups
reads_link_local = refl

reads_mapped : parse_ip (codes "::ffff:1.2.3.4") ≡ some (IpAddr.v6 0xffff01020304)
unfolding parse_ip read_ipv4 read_ipv6 read_groups read_number digits of_groups
reads_mapped = refl

refuses_nine : parse_ip (codes "1:2:3:4:5:6:7:8:9") ≡ none
unfolding parse_ip read_ipv4 read_ipv6 read_groups read_number digits of_groups
refuses_nine = refl

refuses_zero_prefix : parse_ip (codes "10.0.0.01") ≡ none
unfolding parse_ip read_ipv4 read_ipv6 read_groups read_number digits of_groups
refuses_zero_prefix = refl

abbrev office : List (List ℕ × RawValue)
office =
    (codes "Mtu.Value", RawValue.int (pos 1400))
    ∷ (codes "Address.Static", RawValue.str (codes "10.0.0.2/24"))
    ∷ []

abbrev london : List (List ℕ × RawValue)
london =
    (codes "Enabled", RawValue.int (pos 0)) ∷ (codes "Mtu.Value", RawValue.str (codes " 68 ")) ∷ []

abbrev root : RawKey
root = raw_key (codes "Profiles") [] (
    one_more
      (raw_key (codes "office") office (one_more (raw_key (codes "london") london no_keys) no_keys))
      no_keys)

abbrev accepted : Result Profiles → Profiles
accepted (ok out) = out
accepted (err path fault) = []

root_resolves : resolve root ≡ ok (accepted (resolve root))
unfolding resolve walk own_values add_profile parse set_values set_value set_address set_dns word_in
    as_bool as_u32 as_list insert bytes_eq has_char less read_items parse_cidr split_slash parse_ip
    read_ipv4 read_number digits trim_end trim_start parse_uint
root_resolves = refl

resolve-IsSound_example : All (λ e. IsSound e.1.address) (accepted (resolve root))
resolve-IsSound_example = resolve-IsSound root (accepted (resolve root)) root_resolves

abbrev alone : Result Profiles
alone = walk (raw_key (codes "london") london no_keys) [] [] true []

alone_walks : alone ≡ ok (accepted alone)
unfolding resolve walk own_values add_profile parse set_values set_value set_address set_dns word_in
    as_bool as_u32 as_list insert bytes_eq has_char parse_uint digits trim_end trim_start
alone_walks = refl

abbrev held : List (List ℕ × RawValue) × Bool
held = ((codes "mtu.value", RawValue.str (codes " 68 ")) ∷ [], false)

london_holds : own_values (codes "london") london [] true ≡ ok held
unfolding own_values bytes_eq as_bool word_in insert
london_holds = refl

walk-Disabled_example : Disabled (accepted alone)
walk-Disabled_example =
    walk-Disabled (codes "london") [] london [] no_keys true held (accepted alone) london_holds refl
      alone_walks

own_values-get_example :
    get text_key (codes "mtu.value") held.0
    ≡ or_else (last_named (codes "mtu.value") london) (get text_key (codes "mtu.value") [])
unfolding bytes_eq
own_values-get_example =
    own_values-get (codes "mtu.value") (codes "london") london [] true held refl london_holds
