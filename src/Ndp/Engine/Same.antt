-- ===== src/Ndp/Engine/Same.antt =====
-- ndp/src/engine.rs: what the loops over prefixes leave alone.
use netd.Base.{
  ℕ, ◌≡◌, refl, ◌∙◌, inl, inr, ◌&&◌, ◌||◌, not, some, List, [], ◌∷◌, arith, ltb, ◌==◌, Bool-cases,
  Option-cases, is_some, done,
}
use netd.Base.Rounds.{◌>>=◌, >>=-eq-done}
use netd.Base.BtreeMap.{get}
use netd.Base.Time.{Instant}
use mathlib.Core.Path.{subst}
use netd.Wire6.{Ipv6Addr}
use netd.Ndp.Packet.{PrefixInfo, RouterAdvert}
use netd.Ndp.Engine.{Engine, prefix_key}
use netd.Ndp.Engine.Draw.{new_temp}
use netd.Ndp.Engine.Lifetimes.{
  is_empty, solicit_again, regenerate, regenerate_all, with_temp, retain, drop_expired, cut_temps,
  expire,
}
use netd.Ndp.Engine.Handlers.{receive_prefix, add_prefix, receive_prefixes, note_router}

-- What the loops leave alone.
abbrev pub Same : Engine → Engine → Type 0
Same e e' =
    (e'.solicit_interval ≡ e.solicit_interval)
    × (e'.last_view ≡ e.last_view)
    × (e'.config ≡ e.config)

pub Same-done : (e e' : Engine) → done e ≡ done e' → Same e e'
Same-done e e' h = let same : e ≡ e' = cc h in subst (Same e) same (refl, refl, refl)

pub Same-trans : (a b c : Engine) → Same a b → Same b c → Same a c
Same-trans a b c h k = (k.0 ∙ h.0, k.1 ∙ h.1, k.2 ∙ h.2)

pub regenerate_all-Same :
    (rounds : ℕ) (now : Instant) (keys : List (Ipv6Addr × ℕ)) (e e' : Engine)
    → regenerate_all rounds now keys e ≡ done e'
    → Same e e'
unfolding regenerate_all
regenerate_all-Same rounds now [] e e' h = Same-done e e' h
regenerate_all-Same rounds now (key ∷ keys) e e' h =
    elim (Option-cases (get prefix_key key e.prefixes)) [
      | inl n ↦ absurd (ground (arith, h, n))
      | inr (p, s) ↦
          let found : (new_temp rounds now key.0 p e.rng >>= λ (temp, rng).
          regenerate_all rounds now keys (with_temp key temp rng e))
              ≡ done e' =
            rw (s, regenerate_all) at h in
          let ((t, rng), made, rest) = >>=-eq-done (new_temp rounds now key.0 p e.rng) _ found in
          regenerate_all-Same rounds now keys (with_temp key t rng e) e' rest
    ]

add_prefix-Same :
    (sha1 : List ℕ → List ℕ) (rounds : ℕ) (now : Instant) (info : PrefixInfo) (e e' : Engine)
    → add_prefix sha1 rounds now info e ≡ done e'
    → Same e e'
unfolding add_prefix
add_prefix-Same sha1 rounds now info e e' h =
    elim (Bool-cases (e.config.temporary && ltb 0 info.preferred)) [
      | inl b ↦
          let found = rw (b, add_prefix) at h in
          let (t, ran, rest) = >>=-eq-done (new_temp rounds now info.prefix _ e.rng) _ found in
          Same-done _ e' rest
      | inr b ↦ Same-done _ e' (rw (b, add_prefix) at h)
    ]

pub receive_prefix-Same :
    (sha1 : List ℕ → List ℕ) (rounds : ℕ) (now : Instant) (info : PrefixInfo) (e e' : Engine)
    → receive_prefix sha1 rounds now info e ≡ done e'
    → Same e e'
unfolding receive_prefix
receive_prefix-Same sha1 rounds now info e e' h =
    elim (Bool-cases
      (not info.autonomous || (not (info.length == 64) || ltb info.valid info.preferred))) [
        | inl b ↦ Same-done e e' (rw (b, receive_prefix) at h)
        | inr b ↦ elim (Option-cases (get prefix_key (info.prefix, info.length) e.prefixes)) [
          | inr (p, s) ↦ Same-done _ e' (rw (b, s, receive_prefix) at h)
          | inl n ↦ elim (Bool-cases (ltb 0 info.valid)) [
            | inl v ↦ add_prefix-Same sha1 rounds now info e e' (rw (b, n, v, receive_prefix) at h)
            | inr v ↦ Same-done e e' (rw (b, n, v, receive_prefix) at h)
          ]
        ]
      ]

pub receive_prefixes-Same :
    (sha1 : List ℕ → List ℕ) (rounds : ℕ) (now : Instant) (ps : List PrefixInfo) (e e' : Engine)
    → receive_prefixes sha1 rounds now ps e ≡ done e'
    → Same e e'
unfolding receive_prefixes
receive_prefixes-Same sha1 rounds now [] e e' h = Same-done e e' h
receive_prefixes-Same sha1 rounds now (p ∷ ps) e e' h =
    let (x, ran, rest) = >>=-eq-done (receive_prefix sha1 rounds now p e) _ h in
    Same-trans e x e' (receive_prefix-Same sha1 rounds now p e x ran)
      (receive_prefixes-Same sha1 rounds now ps x e' rest)

pub note_router-Same :
    (sha1 : List ℕ → List ℕ) (rounds : ℕ) (now : Instant) (source : Ipv6Addr) (ra : RouterAdvert)
    (e : Engine)
    → Same e (note_router sha1 rounds now source ra e)
unfolding note_router
note_router-Same sha1 rounds now source ra e = elim (Bool-cases (ltb 0 ra.router_lifetime)) [
  | inl b ↦ rw b (refl, refl, refl)
  | inr b ↦ rw b (refl, refl, refl)
]

solicit_again-last_view :
    (now : Instant) (e : Engine)
    → ((solicit_again now e).last_view ≡ e.last_view) × ((solicit_again now e).config ≡ e.config)
unfolding solicit_again
solicit_again-last_view now e =
    elim (Bool-cases (is_empty e.routers && not (is_some e.solicit_at))) [
      | inl c ↦ rw c (refl, refl)
      | inr c ↦ rw c (refl, refl)
    ]

pub drop_expired-config : (now : Instant) (e : Engine) → (drop_expired now e).config ≡ e.config
unfolding drop_expired
drop_expired-config now e =
    (solicit_again-last_view now
      (record e { expired_at = some now; routers = retain (λ t. ltb now t) e.routers })).1

-- An expiry leaves alone what was last seen, and the configuration.
pub expire-last_view :
    (rounds : ℕ) (now : Instant) (e e' : Engine)
    → expire rounds now e ≡ done e'
    → (e'.last_view ≡ e.last_view) × (e'.config ≡ e.config)
unfolding expire drop_expired
expire-last_view rounds now e e' h =
    let d = drop_expired now e in
    let (r, ran, rest) =
      >>=-eq-done (regenerate_all rounds now (regenerate now d.config d.prefixes) d) _ h in
    let kept = regenerate_all-Same rounds now (regenerate now d.config d.prefixes) d r ran in
    let before =
      solicit_again-last_view now
        (record e { expired_at = some now; routers = retain (λ t. ltb now t) e.routers }) in
    let last : cut_temps r ≡ e' = cc rest in
    subst (λ (x : Engine). (x.last_view ≡ e.last_view) × (x.config ≡ e.config)) last
      (kept.1 ∙ before.0, kept.2 ∙ before.1)
