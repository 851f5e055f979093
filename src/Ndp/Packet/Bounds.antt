-- ===== src/Ndp/Packet/Bounds.antt =====
-- ndp/src/packet.rs: what `RouterAdvert::decode` yields, and its loop.
use netd.Base.{
  ℕ, zero, suc, ◌+◌, ◌*◌, ◌≤◌, ◌<◌, ◌≡◌, refl, ap, ◌∙◌, ◌≢◌, inl, inr, true, false, ◌&&◌, ◌||◌, not,
  Option, none, some, List, [], ◌∷◌, arith, ltb, ◌==◌, if◌then◌else◌, Bool-cases, Option-cases, ◌⊎◌,
  done, stuck, run_or, run_or-done, length, take, drop, All, All-append, All-take, All-drop,
  length-append, length-drop,
}
use netd.Base.Bytes.{IsByte, IsBytes, u16_mod, u32_mod, byte_at}
use netd.Wire6.{is_server, is_multicast, servers_bounds}
use netd.Wire6.Names.Bounds.{IsName, domain_list-bounds}
use netd.Ndp.Packet.{
  PrefixInfo, Rdnss, Dnssl, RouterAdvert, is_link_local, prefix_info, rdnss, dnssl, take_option,
  options_loop, header, decode, router_advert, word_at, pushed, option_prefix_info, option_mtu,
  option_rdnss, option_dnssl,
}
use mathlib.Core.Path.{subst}

options_loop-ne-stuck :
    (fuel : ℕ) (rest : List ℕ) (ra : RouterAdvert)
    → length rest < fuel
    → options_loop fuel rest ra ≢ stuck
unfolding options_loop
options_loop-ne-stuck zero rest ra h = absurd (omega arith)
options_loop-ne-stuck (suc fuel) rest ra h =
    let len = byte_at rest 1 * 8 in
    ground (
      arith,
      length-drop len rest,
      options_loop-ne-stuck fuel (drop len rest) (take_option (byte_at rest 0) (take len rest) ra),
    )

-- The option loop of `decode` ends on every input.
options_loop-returns :
    (rest : List ℕ) (ra : RouterAdvert)
    → options_loop (length rest + 1) rest ra
      ≡ done (run_or none (options_loop (length rest + 1) rest ra))
options_loop-returns rest ra =
    run_or-done none (options_loop (length rest + 1) rest ra)
      (options_loop-ne-stuck (length rest + 1) rest ra (omega arith))

-- A prefix of at most 128 bits that is neither multicast nor link-local, with 32-bit lifetimes.
abbrev pub IsPrefix : PrefixInfo → Type 0
IsPrefix p =
    (p.length ≤ 128)
    × (is_multicast p.prefix ≡ false)
    × (is_link_local p.prefix ≡ false)
    × (p.valid < u32_mod)
    × (p.preferred < u32_mod)

abbrev pub IsRdnss : Rdnss → Type 0
IsRdnss r =
    (r.lifetime < u32_mod) × (length r.servers ≤ 16) × All (λ a. is_server a ≡ true) r.servers

abbrev pub IsDnssl : Dnssl → Type 0
IsDnssl d = (d.lifetime < u32_mod) × (length d.domains ≤ 16) × All IsName d.domains

-- What any advertisement is held to.
pub record IsAdvert (ra : RouterAdvert) : Type 0 where
  router_lifetime : ra.router_lifetime < u16_mod
  mtu : (m : ℕ) → ra.mtu ≡ some m → m < u32_mod
  prefixes : (length ra.prefixes ≤ 16) × All IsPrefix ra.prefixes
  rdnss : All IsRdnss ra.rdnss
  dnssl : All IsDnssl ra.dnssl

byte_at-IsByte : (v : List ℕ) (i : ℕ) → IsBytes v → IsByte (byte_at v i)
byte_at-IsByte [] i h = omega arith
byte_at-IsByte (b ∷ v) zero h = h.0
byte_at-IsByte (b ∷ v) (suc i) h = byte_at-IsByte v i h.1

word_at_bound : (v : List ℕ) (i : ℕ) → IsBytes v → word_at v i < u32_mod
word_at_bound v i h = omega (
  arith,
  byte_at-IsByte v i h,
  byte_at-IsByte v (i + 1) h,
  byte_at-IsByte v (i + 2) h,
  byte_at-IsByte v (i + 3) h,
)

All-pushed :
    {A : Type 0} (P : A → Type 0) (xs : List A) (o : Option A)
    → All P xs
    → ((x : A) → o ≡ some x → P x)
    → All P (pushed xs o)
All-pushed P xs none h k = h
All-pushed P xs (some x) h k = All-append P xs (x ∷ []) h (k x refl, tt)

prefix_info-IsPrefix :
    (option : List ℕ) (p : PrefixInfo) → IsBytes option → prefix_info option ≡ some p → IsPrefix p
unfolding prefix_info
prefix_info-IsPrefix option p b h =
    ground (arith, word_at_bound option 4 b, word_at_bound option 8 b)

rdnss-IsRdnss : (option : List ℕ) (r : Rdnss) → IsBytes option → rdnss option ≡ some r → IsRdnss r
unfolding rdnss
rdnss-IsRdnss option r b h =
    ground (arith, word_at_bound option 4 b, servers_bounds (drop 8 option))

dnssl-IsDnssl : (option : List ℕ) (d : Dnssl) → IsBytes option → dnssl option ≡ some d → IsDnssl d
unfolding dnssl
dnssl-IsDnssl option d b h =
    ground (arith, word_at_bound option 4 b, domain_list-bounds (drop 8 option))

length-pushed : {A : Type 0} (xs : List A) (o : Option A) → length (pushed xs o) ≤ length xs + 1
length-pushed xs none = omega arith
length-pushed xs (some x) = omega (arith, length-append xs (x ∷ []))

-- The last two options.
take_lists-IsAdvert :
    (kind : ℕ) (option : List ℕ) (ra : RouterAdvert)
    → IsBytes option
    → IsAdvert ra
    → IsAdvert (
        if kind == option_rdnss
        then record ra { rdnss = pushed ra.rdnss (rdnss option) }
        else if kind == option_dnssl
        then record ra { dnssl = pushed ra.dnssl (dnssl option) }
        else ra)
take_lists-IsAdvert kind option ra b a = elim (Bool-cases (kind == option_rdnss)) [
  | inl r ↦ rw r (record {
    router_lifetime = a.router_lifetime;
    mtu = a.mtu;
    prefixes = a.prefixes;
    rdnss = All-pushed IsRdnss ra.rdnss (rdnss option) a.rdnss (λ x. rdnss-IsRdnss option x b);
    dnssl = a.dnssl;
  })
  | inr r ↦ rw r (elim (Bool-cases (kind == option_dnssl)) [
    | inl d ↦ rw d (record {
      router_lifetime = a.router_lifetime;
      mtu = a.mtu;
      prefixes = a.prefixes;
      rdnss = a.rdnss;
      dnssl = All-pushed IsDnssl ra.dnssl (dnssl option) a.dnssl (λ x. dnssl-IsDnssl option x b);
    })
    | inr d ↦ rw d a
  ])
]

take_option-IsAdvert :
    (kind : ℕ) (option : List ℕ) (ra : RouterAdvert)
    → IsBytes option
    → IsAdvert ra
    → IsAdvert (take_option kind option ra)
unfolding take_option
take_option-IsAdvert kind option ra b a =
    elim (Bool-cases (kind == option_prefix_info && ltb (length ra.prefixes) 16)) [
      | inl p ↦ rw p (record {
        router_lifetime = a.router_lifetime;
        mtu = a.mtu;
        prefixes = (
          ground (arith, p, length-pushed ra.prefixes (prefix_info option)),
          All-pushed IsPrefix ra.prefixes (prefix_info option) a.prefixes.1
              (λ x. prefix_info-IsPrefix option x b),
        );
        rdnss = a.rdnss;
        dnssl = a.dnssl;
      })
      | inr p ↦ rw p (elim (Bool-cases (kind == option_mtu && length option == 8)) [
        | inl m ↦ rw m (record {
          router_lifetime = a.router_lifetime;
          mtu = λ n e. ground (arith, word_at_bound option 4 b, e);
          prefixes = a.prefixes;
          rdnss = a.rdnss;
          dnssl = a.dnssl;
        })
        | inr m ↦ rw m (take_lists-IsAdvert kind option ra b a)
      ])
    ]

-- Every option that the loop meets keeps the advertisement within its bounds.
options_loop-IsAdvert :
    (fuel : ℕ) (rest : List ℕ) (ra r : RouterAdvert)
    → IsBytes rest
    → IsAdvert ra
    → options_loop fuel rest ra ≡ done (some r)
    → IsAdvert r
unfolding options_loop
options_loop-IsAdvert zero rest ra r b a h = cc
options_loop-IsAdvert (suc fuel) rest ra r b a h =
    let len = byte_at rest 1 * 8 in
    elim (Bool-cases (length rest == 0)) [
      | inl e ↦ subst IsAdvert (ground (arith, e, h)) a
      | inr e ↦
          options_loop-IsAdvert fuel (drop len rest)
            (take_option (byte_at rest 0) (take len rest) ra) r (All-drop IsByte len rest b)
            (take_option-IsAdvert (byte_at rest 0) (take len rest) ra (All-take IsByte len rest b)
              a)
            (ground (arith, e, h))
    ]

header-IsAdvert : (body : List ℕ) → IsBytes body → IsAdvert (header body)
header-IsAdvert body b = record {
  router_lifetime = omega (arith, byte_at-IsByte body 6 b, byte_at-IsByte body 7 b);
  mtu = λ m e. cc;
  prefixes = (omega arith, tt);
  rdnss = tt;
  dnssl = tt;
}

-- `decode` ends on every input.
decode-ends : (body : List ℕ) → decode body ≡ done (run_or none (decode body))
unfolding decode
decode-ends body =
    let ends = options_loop-returns (drop 16 body) (header body) in
    elim (Bool-cases (
      ltb (length body) 16
      || (not (byte_at body 0 == router_advert) || not (byte_at body 1 == 0)))) [
        | inl b ↦ rw b refl
        | inr b ↦ rw b ends
      ]

-- What `decode` may answer.
pub decode-cases :
    (body : List ℕ)
    → (decode body ≡ done none) ⊎ ((ra : RouterAdvert) × (decode body ≡ done (some ra)))
decode-cases body = elim (Option-cases (run_or none (decode body))) [
  | inl n ↦ inl (decode-ends body ∙ ap done n)
  | inr (ra, s) ↦ inr (ra, decode-ends body ∙ ap done s)
]

-- Whatever bytes arrive, an advertisement that `decode` yields has at most 16 prefixes, each of at
-- most 128 bits and neither multicast nor link-local; each list of servers has at most 16, none
-- unspecified, multicast or loopback; each list of names at most 16 printable names of at most 253
-- bytes; and every number is within its width.
pub decode-IsAdvert :
    (body : List ℕ) (ra : RouterAdvert) → IsBytes body → decode body ≡ done (some ra) → IsAdvert ra
unfolding decode
decode-IsAdvert body ra b h =
    let rest = drop 16 body in
    options_loop-IsAdvert (length rest + 1) rest (header body) ra (All-drop IsByte 16 body b)
      (header-IsAdvert body b) (ground (arith, h))
