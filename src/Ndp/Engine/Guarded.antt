-- ===== src/Ndp/Engine/Guarded.antt =====
-- ndp/src/engine.rs: what an advertisement cannot do, and which identifiers are taken.
use netd.Base.{
  ℕ, zero, suc, ◌+◌, ◌-◌, ◌≤◌, min, ◌≡◌, inl, inr, false, ◌&&◌, ◌||◌, not, Option, none, some, List,
  arith, ltb, ◌==◌, Bool-cases, done,
}
use netd.Base.Bytes.{u32_mod}
use netd.Base.Time.{Instant, from_secs}
use mathlib.Core.Path.{subst}
use netd.Wire6.{Ipv6Addr}
use netd.Ndp.Packet.{PrefixInfo}
use netd.Ndp.Engine.{Prefix, next_random, join, reserved_iid, until, two_hours}
use netd.Ndp.Engine.Draw.{taken, iid_after, draw}
use netd.Ndp.Engine.Handlers.{extended, refreshed}

-- The end `t` is no earlier than the instant `floor`; `none` is for ever.
abbrev pub NoEarlier : Instant → Option Instant → Type 0
NoEarlier floor none = Unit
NoEarlier floor (some t) = floor ≤ t

abbrev pub floor_of : Instant → Option Instant → Instant
floor_of now none = now + two_hours
floor_of now (some t) = min t (now + two_hours)

until-NoEarlier :
    (now : Instant) (s : ℕ) (floor : Instant)
    → floor ≤ now + from_secs s
    → NoEarlier floor (until now s)
until-NoEarlier now s floor h = elim (Bool-cases (s == u32_mod - 1)) [
  | inl e ↦ rw e tt
  | inr e ↦ rw e h
]

-- Whatever lifetimes are advertised for a prefix that is known, its valid lifetime then ends no earlier
-- than the earlier of the end that it had and two hours from now; that of a prefix valid for ever ends
-- no earlier than two hours from now.
pub refreshed-NoEarlier :
    (now : Instant) (info : PrefixInfo) (p : Prefix)
    → NoEarlier (floor_of now p.valid_until) (refreshed now info p).valid_until
unfolding extended
refreshed-NoEarlier now info p = go p.valid_until
  where
    go : (t : Option Instant) → NoEarlier (floor_of now t) (extended now info.valid t)
    go none = elim (Bool-cases (ltb two_hours (from_secs info.valid))) [
      | inl e ↦ rw e (until-NoEarlier now info.valid (now + two_hours) (ground (arith, e)))
      | inr e ↦ rw e (omega arith)
    ]
    go (some t) =
        elim (Bool-cases
          (ltb two_hours (from_secs info.valid) || ltb (t - now) (from_secs info.valid))) [
            | inl e ↦
                rw e (until-NoEarlier now info.valid (min t (now + two_hours)) (ground (arith, e)))
            | inr e ↦ rw e (ground arith)
          ]

-- Where a draw ends, its identifier is not reserved, and its address is not one that the prefix has.
pub draw-IsFree :
    (rounds : ℕ) (prefix : Ipv6Addr) (p : Prefix) (rng : ℕ) (iid : List ℕ) (rng' : ℕ)
    → draw rounds prefix p rng ≡ done (iid, rng')
    → (reserved_iid iid ≡ false) × (taken p (join prefix iid) ≡ false)
unfolding draw
draw-IsFree zero prefix p rng iid rng' h = cc
draw-IsFree (suc rounds) prefix p rng iid rng' h =
    let first = iid_after rng in
    elim (Bool-cases (not (reserved_iid first) && not (taken p (join prefix first)))) [
      | inl f ↦
          let same : first ≡ iid = ground (arith, h, f) in
          subst (λ i. (reserved_iid i ≡ false) × (taken p (join prefix i) ≡ false)) same
            (ground (arith, f), ground (arith, f))
      | inr f ↦
          draw-IsFree rounds prefix p (next_random (next_random rng)) iid rng' (rw (f, draw) at h)
    ]
