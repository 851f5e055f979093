-- ===== src/Dhcp6/Client/Genuine.antt =====
-- dhcp6/src/lib.rs, `parse_reply`: the replies that it takes.
use netd.Base.{
  ℕ, ◌%◌, ◌≤◌, ◌≡◌, refl, sym, ap, ◌∙◌, inl, inr, Bool, true, false, ◌&&◌, Option, none, some, List,
  [], ◌∷◌, arith, ◌==◌, if◌then◌else◌, Bool-cases, Option-cases, get_or_else, map_option, or_else,
  length, drop, All,
}
use netd.Base.Bytes.{bytes_eq, bytes_eq_sound}
use netd.Wire6.{is_server, servers, servers_bounds}
use netd.Wire6.Names.Bounds.{IsName, domain_list-bounds}
use netd.Dhcp6.Options.{option_client_id, option_server_id, options}
use netd.Dhcp6.Client.{
  Client, Info, Seen, see, see_all, nothing_seen, is_our_reply, is_empty, parse_reply, domain_list,
}
use mathlib.Core.Path.{subst}
use mathlib.Core.List.{Memᴰ}
use mathlib.Core.List.Memᴰ.{head, tail}

-- Information within the ceilings, with servers and names that may be ones.
pub IsBounded : Info → Type 0
IsBounded i =
    ((length i.dns ≤ 16) × All (λ a. is_server a ≡ true) i.dns)
    × ((length i.search ≤ 16) × All IsName i.search)

see-IsBounded :
    (duid : List ℕ) (o : ℕ × List ℕ) (s s' : Seen)
    → see duid o s ≡ some s'
    → IsBounded s.info
    → IsBounded s'.info
unfolding see IsBounded
see-IsBounded duid (code, v) s s' e b = ground (arith, servers_bounds v, domain_list-bounds v)

pair_eq : {c d : ℕ} {v w : List ℕ} → c ≡ d → v ≡ w → ◌≡◌ {A = ℕ × List ℕ} (c, v) (d, w)
pair_eq p q = cc

-- What a run over the options has seen, put beside the options.
record Backed (duid : List ℕ) (os : List (ℕ × List ℕ)) (s : Seen) : Type 0 where
  client_ours : s.client_id_ours ≡ true → Memᴰ (option_client_id, duid) os
  server_named :
      s.server_id ≡ true → (id : List ℕ) × Memᴰ (option_server_id, id) os × (is_empty id ≡ false)

see-Backed :
    (duid : List ℕ) (o : ℕ × List ℕ) (os : List (ℕ × List ℕ)) (s s' : Seen)
    → see duid o s ≡ some s'
    → Memᴰ o os
    → Backed duid os s
    → Backed duid os s'
unfolding see
see-Backed duid (code, v) os s s' e m b = elim (Bool-cases (code == option_client_id)) [
  | inl c ↦ elim (Bool-cases (bytes_eq v duid)) [
    | inr n ↦ absurd (ground (arith, e, c, n))
    | inl y ↦ record {
      client_ours =
          λ h. subst (λ o. Memᴰ o os) (pair_eq (ground (arith, c)) (bytes_eq_sound v duid y)) m;
      server_named = λ h. b.server_named (ground (arith, e, c, y, h));
    }
  ]
  | inr c ↦ record {
    client_ours = λ h. b.client_ours (ground (arith, e, c, h));
    server_named = λ h. elim (Bool-cases (code == option_server_id)) [
      | inl y ↦ (
        v,
        subst (λ o. Memᴰ o os) (pair_eq (ground (arith, y)) refl) m,
        ground (arith, e, c, y, h),
      )
      | inr n ↦ b.server_named (ground (arith, e, c, n, h))
    ];
  }
]

-- Every client id among the options is the client's own.
abbrev pub OnlyOurs : List ℕ → List (ℕ × List ℕ) → Type 0
OnlyOurs duid = All (λ o. o.0 ≡ option_client_id → o.1 ≡ duid)

see-ours :
    (duid : List ℕ) (o : ℕ × List ℕ) (s s' : Seen)
    → see duid o s ≡ some s'
    → o.0 ≡ option_client_id
    → o.1 ≡ duid
unfolding see
see-ours duid (code, v) s s' e c = bytes_eq_sound v duid (ground (arith, e, c))

-- A pass over the rest `os` of the options `all`.
see_all-seen :
    (duid : List ℕ) (all os : List (ℕ × List ℕ)) (s s' : Seen)
    → ((o : ℕ × List ℕ) → Memᴰ o os → Memᴰ o all)
    → see_all duid os s ≡ some s'
    → Backed duid all s
    → IsBounded s.info
    → Backed duid all s' × IsBounded s'.info × OnlyOurs duid os
unfolding see_all
see_all-seen duid all [] s s' into e b i =
    let same : s ≡ s' = ground arith in
    (subst (Backed duid all) same b, subst (λ (u : Seen). IsBounded u.info) same i, tt)
see_all-seen duid all (o ∷ os) s s' into e b i = elim (Option-cases (see duid o s)) [
  | inl n ↦ absurd (ground (arith, e, n))
  | inr (t, n) ↦
      let (b', i', all') =
        see_all-seen duid all os t s' (λ p m. into p (tail m)) (ground (arith, e, n))
          (see-Backed duid o all s t n (into o (head refl)) b) (see-IsBounded duid o s t n i) in
      (b', i', (see-ours duid o s t n, all'))
]

-- The value of the last of the options that pass a test.
abbrev pub last_value : (ℕ × List ℕ → Bool) → List (ℕ × List ℕ) → Option (List ℕ)
last_value p [] = none
last_value p (o ∷ os) = or_else (last_value p os) (if p o then some o.1 else none)

-- A list of servers counts where its length is one of whole addresses.
abbrev pub has_servers : ℕ × List ℕ → Bool
has_servers (code, v) = code == 23 && length v % 16 == 0

abbrev pub has_domains : ℕ × List ℕ → Bool
has_domains (code, v) = code == 24

-- The information is what the last option for each list says; a list that no option gives is empty.
abbrev pub IsSaid : List (ℕ × List ℕ) → Info → Type 0
IsSaid os info =
    (info.dns ≡ get_or_else (map_option servers (last_value has_servers os)) [])
    × (info.search ≡ get_or_else (map_option domain_list (last_value has_domains os)) [])

-- The same behind what was seen before.
abbrev SaidAfter : List (ℕ × List ℕ) → Seen → Seen → Type 0
SaidAfter os s s' =
    (s'.info.dns ≡ get_or_else (map_option servers (last_value has_servers os)) s.info.dns)
    × (s'.info.search
        ≡ get_or_else (map_option domain_list (last_value has_domains os)) s.info.search)

or_else_after :
    {A : Type 0} (f : List ℕ → A) (x : Option (List ℕ)) (b : Bool) (v : List ℕ) (d : A)
    → get_or_else (map_option f (or_else x (if b then some v else none))) d
      ≡ get_or_else (map_option f x) (if b then f v else d)
or_else_after f none true v d = refl
or_else_after f none false v d = refl
or_else_after f (some a) b v d = refl

see-info :
    (duid : List ℕ) (o : ℕ × List ℕ) (s t : Seen)
    → see duid o s ≡ some t
    → (t.info.dns ≡ (if has_servers o then servers o.1 else s.info.dns))
      × (t.info.search ≡ (if has_domains o then domain_list o.1 else s.info.search))
unfolding see
see-info duid (code, v) s t h = (ground arith, ground arith)

see_all-SaidAfter :
    (duid : List ℕ) (os : List (ℕ × List ℕ)) (s s' : Seen)
    → see_all duid os s ≡ some s'
    → SaidAfter os s s'
unfolding see_all
see_all-SaidAfter duid [] s s' h =
    let same : s ≡ s' = ground arith in
    (ap (λ (x : Seen). x.info.dns) (sym same), ap (λ (x : Seen). x.info.search) (sym same))
see_all-SaidAfter duid (o ∷ os) s s' h = elim (Option-cases (see duid o s)) [
  | inl n ↦ absurd (ground (arith, h, n))
  | inr (t, n) ↦
      let (dns, search) = see_all-SaidAfter duid os t s' (ground (arith, h, n)) in
      let (dns_now, search_now) = see-info duid o s t n in
      (
        dns
            ∙ (ap (get_or_else (map_option servers (last_value has_servers os))) dns_now
                ∙ sym (
                    or_else_after servers (last_value has_servers os) (has_servers o) o.1
                      s.info.dns)),
        search
            ∙ (ap (get_or_else (map_option domain_list (last_value has_domains os))) search_now
                ∙ sym (
                    or_else_after domain_list (last_value has_domains os) (has_domains o) o.1
                      s.info.search)),
      )
]

-- What a reply must have: it is a REPLY of the running transaction, its options name this client and
-- no other, and a server by an id that is not empty.
pub record IsGenuine (c : Client) (datagram : List ℕ) : Type 0 where
  ours : is_our_reply c datagram ≡ true
  names_client : Memᴰ (option_client_id, c.config.duid) (options (drop 4 datagram))
  names_server :
      (id : List ℕ) × Memᴰ (option_server_id, id) (options (drop 4 datagram))
      × (is_empty id ≡ false)
  names_no_other : OnlyOurs c.config.duid (options (drop 4 datagram))

nothing_seen-IsBounded : IsBounded nothing_seen.info
unfolding IsBounded
nothing_seen-IsBounded = ((omega arith, tt), (omega arith, tt))

-- A reply that is parsed is genuine, and what it gives is what its options say, within the ceilings.
pub parse_reply-IsGenuine :
    (c : Client) (datagram : List ℕ) (info : Info)
    → parse_reply c datagram ≡ some info
    → IsGenuine c datagram × IsBounded info × IsSaid (options (drop 4 datagram)) info
unfolding parse_reply
parse_reply-IsGenuine c datagram info e =
    let os = options (drop 4 datagram) in
    elim (Option-cases (see_all c.config.duid os nothing_seen)) [
      | inl n ↦ absurd (ground (arith, e, n))
      | inr (s, n) ↦
          let none_yet : Backed c.config.duid os nothing_seen = record {
            client_ours = λ h. cc;
            server_named = λ h. cc;
          } in
          let (b, i, all) =
            see_all-seen c.config.duid os os nothing_seen s (λ o m. m) n none_yet
              nothing_seen-IsBounded in
          (
            record {
              ours = ground (arith, e);
              names_client = b.client_ours (ground (arith, e, n));
              names_server = b.server_named (ground (arith, e, n));
              names_no_other = all;
            },
            subst IsBounded (ground (arith, e, n)) i,
            subst (IsSaid os) (ground (arith, e, n))
                (see_all-SaidAfter c.config.duid os nothing_seen s n),
          )
    ]
