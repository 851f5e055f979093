-- ===== src/Ndp/Engine/Ends.antt =====
-- ndp/src/engine.rs: that `receive` finishes, for an engine that forms no temporary addresses.
use netd.Base.{
  length, ◌+◌, ℕ, ◌≡◌, refl, ap, ◌∙◌, inl, inr, false, ◌||◌, not, List, [], ◌∷◌, ltb, ◌==◌,
  Bool-cases, Option-cases, Loop, done,
}
use netd.Base.Rounds.{◌>>=◌}
use netd.Base.BtreeMap.{get}
use netd.Base.Time.{Instant}
use netd.Wire6.{Ipv6Addr}
use netd.Wire6.Names.{domain_list, domain_loop}
use netd.Wire6.Names.Bounds.{domain_list-returns}
use netd.Ndp.Packet.{PrefixInfo, RouterAdvert}
use netd.Ndp.Packet.Bounds.{decode-cases}
use netd.Ndp.Engine.{Config, Prefix, Engine, prefix_key}
use netd.Ndp.Engine.Lifetimes.{regenerate, regenerate_all, drop_expired, cut_temps, expire}
use netd.Ndp.Engine.Handlers.{
  emit_if_changed, add_prefix, receive_prefix, receive_prefixes, note_router, note_rdnss,
  note_dnssl, take_advert, receive,
}
use netd.Ndp.Engine.Same.{
  receive_prefix-Same, receive_prefixes-Same, note_router-Same, drop_expired-config,
}

abbrev pub Returns {ℓ} : {A : Type ℓ} → Loop A → Type ℓ
Returns {A = A} l = (a : A) × (l ≡ done a)

regenerate_none :
    (now : Instant) (config : Config) (m : List ((Ipv6Addr × ℕ) × Prefix))
    → config.temporary ≡ false
    → regenerate now config m ≡ []
unfolding regenerate
regenerate_none now config [] h = refl
regenerate_none now config ((key, p) ∷ m) h = rw (h, regenerate) (regenerate_none now config m h)

expire-Returns :
    (rounds : ℕ) (now : Instant) (e : Engine)
    → e.config.temporary ≡ false
    → Returns (expire rounds now e)
unfolding expire regenerate_all
expire-Returns rounds now e h =
    let d = drop_expired now e in
    let off : d.config.temporary ≡ false =
      ap (λ (c : Config). c.temporary) (drop_expired-config now e) ∙ h in
    (cut_temps d, rw (regenerate_none now d.config d.prefixes off, regenerate_all) refl)

receive_prefix-Returns :
    (sha1 : List ℕ → List ℕ) (rounds : ℕ) (now : Instant) (info : PrefixInfo) (e : Engine)
    → e.config.temporary ≡ false
    → Returns (receive_prefix sha1 rounds now info e)
unfolding receive_prefix add_prefix
receive_prefix-Returns sha1 rounds now info e h =
    elim (Bool-cases
      (not info.autonomous || (not (info.length == 64) || ltb info.valid info.preferred))) [
        | inl b ↦ (e, rw b refl)
        | inr b ↦ elim (Option-cases (get prefix_key (info.prefix, info.length) e.prefixes)) [
          | inr (p, s) ↦ rw (b, s) (_, refl)
          | inl n ↦ elim (Bool-cases (ltb 0 info.valid)) [
            | inl v ↦ rw (b, n, v, h) (_, refl)
            | inr v ↦ rw (b, n, v) (_, refl)
          ]
        ]
      ]

receive_prefixes-Returns :
    (sha1 : List ℕ → List ℕ) (rounds : ℕ) (now : Instant) (ps : List PrefixInfo) (e : Engine)
    → e.config.temporary ≡ false
    → Returns (receive_prefixes sha1 rounds now ps e)
unfolding receive_prefixes
receive_prefixes-Returns sha1 rounds now [] e h = (e, refl)
receive_prefixes-Returns sha1 rounds now (p ∷ ps) e h =
    let (x, ran) = receive_prefix-Returns sha1 rounds now p e h in
    let same = (receive_prefix-Same sha1 rounds now p e x ran).2 in
    let (y, rest) =
      receive_prefixes-Returns sha1 rounds now ps x (ap (λ (c : Config). c.temporary) same ∙ h) in
    (y, ap (λ l. l >>= receive_prefixes sha1 rounds now ps) ran ∙ rest)

take_advert-Returns :
    (sha1 : List ℕ → List ℕ) (rounds : ℕ) (now : Instant) (source : Ipv6Addr) (ra : RouterAdvert)
    (e : Engine)
    → e.config.temporary ≡ false
    → Returns (take_advert sha1 rounds now source ra e)
unfolding take_advert
take_advert-Returns sha1 rounds now source ra e h =
    let noted = note_router sha1 rounds now source ra e in
    let off =
      ap (λ (c : Config). c.temporary) (note_router-Same sha1 rounds now source ra e).2 ∙ h in
    let (x, ran) = receive_prefixes-Returns sha1 rounds now ra.prefixes noted off in
    let still =
      ap (λ (c : Config). c.temporary)
        (receive_prefixes-Same sha1 rounds now ra.prefixes noted x ran).2
      ∙ off in
    let lists : Engine = record x {
      rdnss = note_rdnss sha1 rounds now ra.rdnss x.rdnss;
      dnssl = note_dnssl sha1 rounds now ra.dnssl x.dnssl;
    } in
    let (y, expired) = expire-Returns rounds now lists still in
    (emit_if_changed now y [], rw (ran, ◌>>=◌) (rw (expired, ◌>>=◌) refl))

received-Returns :
    (sha1 : List ℕ → List ℕ) (rounds : ℕ) (now : Instant) (source : Ipv6Addr) (body : List ℕ)
    (e : Engine)
    → e.config.temporary ≡ false
    → Returns (receive sha1 rounds now source body e)
unfolding receive
received-Returns sha1 rounds now source body e h = elim (decode-cases body) [
  | inl n ↦ ((e, []), rw (n, receive) refl)
  | inr (ra, s) ↦
      let (r, ran) = take_advert-Returns sha1 rounds now source ra e h in (r, rw (s, receive) ran)
]

-- Where no temporary addresses are formed, receiving any bytes finishes, with any number of rounds for the
-- drawing loop, none among them; and the loop over the names of a list, which decoding runs, ends on any
-- bytes.
pub receive-Returns :
    (sha1 : List ℕ → List ℕ) (rounds : ℕ) (now : Instant) (source : Ipv6Addr) (body : List ℕ)
    (e : Engine)
    → e.config.temporary ≡ false
    → Returns (receive sha1 rounds now source body e)
      × ((v : List ℕ) → domain_loop (length v + 1) v [] ≡ done (domain_list v))
receive-Returns sha1 rounds now source body e h =
    (received-Returns sha1 rounds now source body e h, domain_list-returns)
