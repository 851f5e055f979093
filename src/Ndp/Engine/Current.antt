-- ===== src/Ndp/Engine/Current.antt =====
-- ndp/src/engine.rs: what holds of the engine behind `expire`.
use netd.Base.{
  ℕ, ◌-◌, ◌<◌, ◌≡◌, refl, inl, inr, Bool, true, false, ◌&&◌, not, Option, none, some, List, [], ◌∷◌,
  arith, ltb, ltb→lt, Bool-cases, Option-cases, is_some, done, length, All, All-append, All-drop,
  All-filter, All-each, All-map, All-imp,
}
use netd.Base.Rounds.{◌>>=◌, >>=-eq-done}
use netd.Base.BtreeMap.{get, get-All, All-update}
use netd.Base.Time.{Instant, Duration}
use mathlib.Core.Path.{subst}
use netd.Wire6.{Ipv6Addr}
use netd.Ndp.Engine.{temp_valid, next_random, Temp, Prefix, Engine, prefix_key, max_temps}
use netd.Ndp.Engine.Draw.{draw, clamp, temp_of, new_temp}
use netd.Ndp.Engine.Lifetimes.{
  is_alive, is_empty, solicit_again, retain, with_valid_temps, map_values, regenerate,
  regenerate_all, push_temp, with_temp, with_newest, drop_expired, cut_temps, expire,
}

-- A lifetime that has not ended.
abbrev pub Lives : Instant → Option Instant → Type 0
Lives now t = is_alive now t ≡ true

abbrev pub TempLives : Instant → Temp → Type 0
TempLives now t = now < t.valid_until

abbrev pub PrefixLives : Instant → Prefix → Type 0
PrefixLives now p = Lives now p.valid_until × All (TempLives now) p.temps

-- All that the engine holds lives, as of its last expiry.
pub record IsCurrent (now : Instant) (e : Engine) : Type 0 where
  pub expired : e.expired_at ≡ some now
  pub routers : All (λ x. now < x.1) e.routers
  pub prefixes : All (λ x. PrefixLives now x.1) e.prefixes
  pub rdnss : All (λ x. Lives now x.1) e.rdnss
  pub dnssl : All (λ x. Lives now x.1) e.dnssl
  pub seeks : is_empty e.routers && not (is_some e.solicit_at) ≡ false

All-retain : {K V : Type 0} (p : V → Bool) (m : List (K × V)) → All (λ x. p x.1 ≡ true) (retain p m)
All-retain p m =
    All-imp _ (λ x. p x.1 ≡ true) (retain p m) (λ x h. h.1)
      (All-filter (λ x. Unit) (λ x. p x.1) m (All-each (λ x. Unit) m (λ x. tt)))

with_valid_temps-Lives :
    (now : Instant) (p : Prefix)
    → Lives now p.valid_until
    → PrefixLives now (with_valid_temps now p)
with_valid_temps-Lives now p h = (
  h,
  All-imp _ (TempLives now) (with_valid_temps now p).temps (λ t k. ltb→lt now t.valid_until k.1)
      (All-filter (λ (t : Temp). Unit) (λ t. ltb now t.valid_until) p.temps
        (All-each (λ (t : Temp). Unit) p.temps (λ t. tt))),
)

drop_expired-IsCurrent : (now : Instant) (e : Engine) → IsCurrent now (drop_expired now e)
unfolding drop_expired solicit_again
drop_expired-IsCurrent now e =
    let routers = retain (λ t. ltb now t) e.routers in
    elim (Bool-cases (is_empty routers && not (is_some e.solicit_at))) [
      | inl c ↦ rw c (record {
        expired = refl;
        routers = live_routers;
        prefixes = live_prefixes;
        rdnss = All-retain (is_alive now) e.rdnss;
        dnssl = All-retain (is_alive now) e.dnssl;
        seeks = ground arith;
      })
      | inr c ↦ rw c (record {
        expired = refl;
        routers = live_routers;
        prefixes = live_prefixes;
        rdnss = All-retain (is_alive now) e.rdnss;
        dnssl = All-retain (is_alive now) e.dnssl;
        seeks = c;
      })
    ]
  where
    live_routers : All (λ x. now < x.1) (retain (λ t. ltb now t) e.routers)
    live_routers =
        All-imp _ (λ x. now < x.1) (retain (λ t. ltb now t) e.routers) (λ x h. ltb→lt now x.1 h)
          (All-retain (λ t. ltb now t) e.routers)

    live_prefixes :
        All
          (λ x. PrefixLives now x.1)
          (map_values (with_valid_temps now) (retain (λ p. is_alive now p.valid_until) e.prefixes))
    live_prefixes =
        All-map (λ x. PrefixLives now x.1) (λ x. (x.0, with_valid_temps now x.1))
          (retain (λ p. is_alive now p.valid_until) e.prefixes)
          (All-imp _ (λ x. PrefixLives now (with_valid_temps now x.1))
            (retain (λ p. is_alive now p.valid_until) e.prefixes)
            (λ x h. with_valid_temps-Lives now x.1 h)
            (All-retain (λ p. is_alive now p.valid_until) e.prefixes))

clamp-lives :
    (now : Instant) (cap : Duration) (limit : Option Instant)
    → 0 < cap
    → Lives now limit
    → now < clamp now cap limit
clamp-lives now cap none p h = omega arith
clamp-lives now cap (some t) p h = ground arith

-- The address of any identifier lives while its prefix does.
temp_of-Lives :
    (now : Instant) (prefix : Ipv6Addr) (p : Prefix) (iid : List ℕ) (r : ℕ)
    → Lives now p.valid_until
    → TempLives now (temp_of now prefix p iid r)
temp_of-Lives now prefix p iid r h = clamp-lives now temp_valid p.valid_until (omega arith) h

new_temp-Lives :
    (rounds : ℕ) (now : Instant) (prefix : Ipv6Addr) (p : Prefix) (rng : ℕ) (t : Temp) (rng' : ℕ)
    → new_temp rounds now prefix p rng ≡ done (t, rng')
    → Lives now p.valid_until
    → TempLives now t
unfolding new_temp
new_temp-Lives rounds now prefix p rng t rng' h l =
    let (d, drawn, rest) = >>=-eq-done (draw rounds prefix p rng) _ h in
    let same : temp_of now prefix p d.0 (next_random d.1) ≡ t = cc rest in
    subst (TempLives now) same (temp_of-Lives now prefix p d.0 (next_random d.1) l)

regenerate_all-keeps :
    (rounds : ℕ) (now : Instant) (keys : List (Ipv6Addr × ℕ)) (e e' : Engine)
    → regenerate_all rounds now keys e ≡ done e'
    → IsCurrent now e
    → IsCurrent now e'
unfolding regenerate_all
regenerate_all-keeps rounds now [] e e' h c = subst (IsCurrent now) (cc h) c
regenerate_all-keeps rounds now (key ∷ keys) e e' h c =
    elim (Option-cases (get prefix_key key e.prefixes)) [
      | inl n ↦ absurd (ground (arith, h, n))
      | inr (p, s) ↦
          let found : (new_temp rounds now key.0 p e.rng >>= λ (temp, rng).
          regenerate_all rounds now keys (with_temp key temp rng e))
              ≡ done e' =
            rw (s, regenerate_all) at h in
          let ((t, rng), made, rest) = >>=-eq-done (new_temp rounds now key.0 p e.rng) _ found in
          let old = get-All prefix_key (PrefixLives now) key e.prefixes p c.prefixes s in
          let lives = new_temp-Lives rounds now key.0 p e.rng t rng made old.0 in
          regenerate_all-keeps rounds now keys (with_temp key t rng e) e' rest (record {
            expired = c.expired;
            routers = c.routers;
            prefixes =
                All-update prefix_key (PrefixLives now) key (push_temp t) e.prefixes
                  (λ q l. (l.0, All-append (TempLives now) q.temps (t ∷ []) l.1 (lives, tt)))
                  c.prefixes;
            rdnss = c.rdnss;
            dnssl = c.dnssl;
            seeks = c.seeks;
          })
    ]

cut_temps-IsCurrent : (now : Instant) (e : Engine) → IsCurrent now e → IsCurrent now (cut_temps e)
cut_temps-IsCurrent now e c = record {
  expired = c.expired;
  routers = c.routers;
  prefixes =
      All-map (λ x. PrefixLives now x.1) (λ x. (x.0, with_newest x.1)) e.prefixes
        (All-imp (λ x. PrefixLives now x.1) (λ x. PrefixLives now (with_newest x.1)) e.prefixes
          (λ x l. (l.0, All-drop (TempLives now) (length x.1.temps - max_temps) x.1.temps l.1))
          c.prefixes);
  rdnss = c.rdnss;
  dnssl = c.dnssl;
  seeks = c.seeks;
}

pub expire-IsCurrent :
    (rounds : ℕ) (now : Instant) (e e' : Engine) → expire rounds now e ≡ done e' → IsCurrent now e'
unfolding expire
expire-IsCurrent rounds now e e' h =
    let d = drop_expired now e in
    let (r, ran, rest) =
      >>=-eq-done (regenerate_all rounds now (regenerate now d.config d.prefixes) d) _ h in
    subst (IsCurrent now) (cc rest) (
      cut_temps-IsCurrent now r (
        regenerate_all-keeps rounds now (regenerate now d.config d.prefixes) d r ran
          (drop_expired-IsCurrent now e)))
