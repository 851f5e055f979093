-- ===== src/Dhcp4/Lease/Routes.antt =====
-- The classless route list (dhcp4/src/packet.rs, `decode_classless_routes`) against an encoder.
use netd.Base.{
  ℕ, zero, suc, ◌+◌, ◌-◌, ◌/◌, ◌%◌, ◌^◌, ◌≤◌, ◌<◌, ◌≡◌, refl, ap, ◌∙◌, ◌≢◌, inl, inr, true, none,
  some, List, [], ◌∷◌, ◌++◌, arith, leb, le→leb, Option-cases, done, stuck, run_or-done, length,
  take, replicate, All, take-append, drop-append, length-append, length-take, length-drop,
}
use netd.Base.Bytes.{be32, split, split-some, u32_mod, from_be32-be32}
use netd.Dhcp4.Lease.{StaticRoute, octets4, read_route, routes_loop, decode_classless_routes}
use mathlib.Core.List.{append_assoc, append-nil}

abbrev octets : ℕ → ℕ
octets prefix = (prefix + 7) / 8

-- RFC 3442: the prefix, its significant octets, and the gateway.
unfoldable pub route_bytes : StaticRoute → List ℕ
route_bytes r = r.prefix ∷ (take (octets r.prefix) (be32 r.destination) ++ be32 r.gateway)

pub routes_bytes : List StaticRoute → List ℕ
routes_bytes [] = []
routes_bytes (r ∷ rs) = route_bytes r ++ routes_bytes rs

-- A route that the wire can carry: octets behind the significant ones are zero.
pub record IsRoute (r : StaticRoute) : Type 0 where
  pub prefix_fits : r.prefix ≤ 32
  pub destination_fits : r.destination < u32_mod
  pub gateway_fits : r.gateway < u32_mod
  pub host_zero : r.destination % 256 ^ (4 - octets r.prefix) ≡ 0

split-append : (a b : List ℕ) → split (length a) (a ++ b) ≡ some (a, b)
unfolding split
split-append a b =
    let fits : leb (length a) (length (a ++ b)) ≡ true =
      le→leb _ _ (omega (arith, length-append a b)) in
    rw (fits, take-append a b, drop-append a b)

-- The significant octets, filled up with zeros, are the whole number.
octets4-take :
    (n d : ℕ)
    → n ≤ 4
    → d < u32_mod
    → d % 256 ^ (4 - n) ≡ 0
    → octets4 (take n (be32 d) ++ replicate 4 0) ≡ d
octets4-take zero d h k e = omega arith
octets4-take (suc zero) d h k e = omega arith
octets4-take (suc (suc zero)) d h k e = omega arith
octets4-take (suc (suc (suc zero))) d h k e = omega arith
octets4-take (suc (suc (suc (suc zero)))) d h k e = omega arith
octets4-take (suc (suc (suc (suc (suc n))))) d h k e = absurd (omega arith)

read_route-append :
    (prefix : ℕ) (d gw rest : List ℕ)
    → prefix ≤ 32
    → octets prefix ≡ length d
    → length gw ≡ 4
    → read_route prefix (d ++ (gw ++ rest))
      ≡ some (
        record {
          destination = octets4 (d ++ replicate 4 0);
          prefix = prefix;
          gateway = octets4 gw;
        },
        rest,
      )
unfolding read_route
read_route-append prefix d gw rest h size four =
    let fits : leb prefix 32 ≡ true = le→leb _ _ h in
    let front : split (octets prefix) (d ++ (gw ++ rest)) ≡ some (d, gw ++ rest) =
      rw size (split-append d (gw ++ rest)) in
    let back : split 4 (gw ++ rest) ≡ some (gw, rest) = rw (← four) (split-append gw rest) in
    rw (fits, front, back)

read_route-bytes :
    (r : StaticRoute) (rest : List ℕ)
    → IsRoute r
    → read_route r.prefix (take (octets r.prefix) (be32 r.destination) ++ (be32 r.gateway ++ rest))
      ≡ some (r, rest)
read_route-bytes r rest w =
    let d = take (octets r.prefix) (be32 r.destination) in
    let small : octets r.prefix ≤ 4 = omega (arith, w) in
    let size : octets r.prefix ≡ length d =
      omega (arith, length-take (octets r.prefix) (be32 r.destination)) in
    let whole : octets4 (d ++ replicate 4 0) ≡ r.destination =
      octets4-take (octets r.prefix) r.destination small w.destination_fits w.host_zero in
    let gate : octets4 (be32 r.gateway) ≡ r.gateway = from_be32-be32 r.gateway w.gateway_fits in
    read_route-append r.prefix d (be32 r.gateway) rest w.prefix_fits size refl
    ∙ ap some (λ i. (record { destination = whole i; prefix = r.prefix; gateway = gate i }, rest))

routes_loop-bytes :
    (rs acc : List StaticRoute) (fuel : ℕ)
    → All IsRoute rs
    → length (routes_bytes rs) ≤ fuel
    → routes_loop fuel (routes_bytes rs) acc ≡ done (some (acc ++ rs))
unfolding routes_loop routes_bytes route_bytes
routes_loop-bytes [] acc fuel w h = rw append-nil
routes_loop-bytes (r ∷ rs) acc zero w h = absurd (omega arith)
routes_loop-bytes (r ∷ rs) acc (suc fuel) w h =
    let d = take (octets r.prefix) (be32 r.destination) in
    rw (append_assoc d (be32 r.gateway) (routes_bytes rs)) (
      rw (read_route-bytes r (routes_bytes rs) w.0, routes_loop)
        (rw (← append_assoc acc (r ∷ []) rs) (
          routes_loop-bytes rs (acc ++ (r ∷ [])) fuel w.1
            (omega (arith, length-append (d ++ be32 r.gateway) (routes_bytes rs))))))

split_shorter : (n : ℕ) (v a b : List ℕ) → split n v ≡ some (a, b) → length b ≤ length v
split_shorter n v a b h = rw ((split-some n v a b h).2) (omega (arith, length-drop n v))

read_route-shorter :
    (prefix : ℕ) (rest rest' : List ℕ) (r : StaticRoute)
    → read_route prefix rest ≡ some (r, rest')
    → length rest' ≤ length rest
unfolding read_route
read_route-shorter prefix rest rest' r h = elim (Option-cases (split ((prefix + 7) / 8) rest)) [
  | inl e ↦ absurd (ground (arith, e))
  | inr ((d, mid), e) ↦ elim (Option-cases (split 4 mid)) [
    | inl f ↦ absurd (ground (arith, e, f))
    | inr ((gw, end), f) ↦
        let same : rest' ≡ end = ground (arith, e, f) in
        rw same (
          omega
            (arith, split_shorter ((prefix + 7) / 8) rest d mid e, split_shorter 4 mid gw end f))
  ]
]

read_route-prefix :
    (prefix : ℕ) (rest rest' : List ℕ) (r : StaticRoute)
    → read_route prefix rest ≡ some (r, rest')
    → r.prefix ≤ 32
unfolding read_route
read_route-prefix prefix rest rest' r h = ground arith

routes_loop-ne-stuck :
    (fuel : ℕ) (v : List ℕ) (routes : List StaticRoute)
    → length v ≤ fuel
    → routes_loop fuel v routes ≢ stuck
unfolding routes_loop
routes_loop-ne-stuck fuel [] routes h = λ e. cc
routes_loop-ne-stuck zero (p ∷ rest) routes h = absurd (omega arith)
routes_loop-ne-stuck (suc fuel) (p ∷ rest) routes h = elim (Option-cases (read_route p rest)) [
  | inl e ↦ rw (e, routes_loop) (λ x. cc)
  | inr ((r, rest'), e) ↦
      rw (e, routes_loop)
        (routes_loop-ne-stuck fuel rest' (routes ++ (r ∷ []))
          (omega (arith, read_route-shorter p rest rest' r e)))
]

-- The loop never runs out of fuel: `none` is the answer to a malformed list alone.
pub decode_classless_routes-returns :
    (v : List ℕ) → routes_loop (length v) v [] ≡ done (decode_classless_routes v)
unfolding decode_classless_routes
decode_classless_routes-returns v =
    run_or-done none (routes_loop (length v) v [])
      (routes_loop-ne-stuck (length v) v [] (omega arith))

-- A list of well-formed routes, written as RFC 3442 has it, is read back whole.
pub decode_classless_routes-bytes :
    (rs : List StaticRoute) → All IsRoute rs → decode_classless_routes (routes_bytes rs) ≡ some rs
unfolding decode_classless_routes
decode_classless_routes-bytes rs w =
    rw (routes_loop-bytes rs [] (length (routes_bytes rs)) w (omega arith))
