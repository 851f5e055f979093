-- ===== src/Ndp/Examples.antt =====
-- Runs of the model of ndp/src/packet.rs at concrete inputs.
use netd.Base.{ℕ, ◌*◌, ◌^◌, ◌≡◌, refl, true, some, List, [], ◌∷◌, ◌++◌, arith, done, replicate}
use netd.Base.Bytes.{IsBytes}
use netd.Ndp.Packet.{RouterAdvert, decode, options_loop, take_option, prefix_info, rdnss}
use netd.Wire6.{ipv6_of, servers}
use netd.Ndp.Packet.Bounds.{IsAdvert, decode-IsAdvert}

-- An advertisement with a prefix, an MTU and a server that is a loopback address.
abbrev body : List ℕ
body =
    (134 ∷ 0 ∷ 0 ∷ 0 ∷ 64 ∷ 0xc0 ∷ 7 ∷ 8 ∷ replicate 8 0)
    ++ ((3 ∷ 4 ∷ 64 ∷ 0xc0 ∷ 0 ∷ 0 ∷ 1 ∷ 0 ∷ 0 ∷ 0 ∷ 0 ∷ 9 ∷ replicate 4 0)
        ++ ((0xfd ∷ replicate 15 0)
            ++ ((5 ∷ 1 ∷ 0 ∷ 0 ∷ 0 ∷ 0 ∷ 5 ∷ 220 ∷ [])
                ++ ((25 ∷ 3 ∷ 0 ∷ 0 ∷ 0 ∷ 0 ∷ 0 ∷ 9 ∷ replicate 15 0) ++ (1 ∷ [])))))

abbrev advert : RouterAdvert
advert = record {
  managed = true;
  other_config = true;
  router_lifetime = 1800;
  mtu = some 1500;
  prefixes =
      record {
        prefix = 0xfd * 2 ^ 120;
        length = 64;
        on_link = true;
        autonomous = true;
        valid = 256;
        preferred = 9;
      }
      ∷ [];
  rdnss = record { lifetime = 9; servers = [] } ∷ [];
  dnssl = [];
}

body-decodes : decode body ≡ done (some advert)
unfolding decode options_loop take_option prefix_info rdnss ipv6_of servers
body-decodes = refl

body-IsBytes : IsBytes body
body-IsBytes = ground arith

decode-IsAdvert_example : IsAdvert advert
decode-IsAdvert_example = decode-IsAdvert body advert body-IsBytes body-decodes
