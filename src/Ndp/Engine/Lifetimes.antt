-- ===== src/Ndp/Engine/Lifetimes.antt =====
-- ndp/src/engine.rs, `expire`: what the time that has passed takes away, and the temporary addresses that
-- take its place.
use netd.Base.{
  ℕ, ◌-◌, Bool, true, false, ◌&&◌, not, Option, none, some, List, [], ◌∷◌, ◌++◌, map, ltb,
  if◌then◌else◌, is_some, Loop, done, stuck, length, drop, filter,
}
use netd.Base.Rounds.{◌>>=◌}
use netd.Base.BtreeMap.{get, update}
use netd.Base.Time.{Instant}
use netd.Wire6.{Ipv6Addr}
use netd.Ndp.Engine.{Config, Temp, Prefix, Engine, prefix_key, solicit_interval, max_temps}
use netd.Ndp.Engine.Draw.{new_temp}

-- `is_none_or(|e| e > now)`
abbrev pub is_alive : Instant → Option Instant → Bool
is_alive now none = true
is_alive now (some t) = ltb now t

abbrev pub is_empty : {A : Type 0} → List A → Bool
is_empty [] = true
is_empty (x ∷ xs) = false

-- Back to soliciting, where all routers are gone.
unfoldable pub solicit_again : Instant → Engine → Engine
solicit_again now e =
    if is_empty e.routers && not (is_some e.solicit_at)
    then record e { solicits = 0; solicit_interval = solicit_interval; solicit_at = some now }
    else e

-- `retain` on a map's values.
abbrev pub retain : {K V : Type 0} → (V → Bool) → List (K × V) → List (K × V)
retain p m = filter (λ x. p x.1) m

-- The first half of the loop over the prefixes.
abbrev pub with_valid_temps : Instant → Prefix → Prefix
with_valid_temps now p = record p { temps = filter (λ t. ltb now t.valid_until) p.temps }

abbrev pub map_values : {K V : Type 0} → (V → V) → List (K × V) → List (K × V)
map_values f m = map (λ x. (x.0, f x.1)) m

-- `last().is_some_and(|t| t.preferred_until > now)`
unfoldable pub newest_preferred : Instant → List Temp → Bool
newest_preferred now [] = false
newest_preferred now (t ∷ []) = ltb now t.preferred_until
newest_preferred now (t ∷ u ∷ ts) = newest_preferred now (u ∷ ts)

abbrev pub wants_temp : Instant → Config → Prefix → Bool
wants_temp now config p =
    config.temporary && (is_alive now p.preferred_until && not (newest_preferred now p.temps))

-- The keys to regenerate for.
unfoldable pub regenerate : Instant → Config → List ((Ipv6Addr × ℕ) × Prefix) → List (Ipv6Addr × ℕ)
regenerate now config [] = []
regenerate now config ((key, p) ∷ m) =
    if wants_temp now config p then key ∷ regenerate now config m else regenerate now config m

-- The temporary address `temp` joins the prefix of `key`.
abbrev pub push_temp : Temp → Prefix → Prefix
push_temp temp p = record p { temps = p.temps ++ (temp ∷ []) }

abbrev pub with_temp : (Ipv6Addr × ℕ) → Temp → ℕ → Engine → Engine
with_temp key temp rng e = record e {
  rng = rng;
  prefixes = update prefix_key key (push_temp temp) e.prefixes;
}

-- The second loop, over those keys; a key that is no longer there is a panic in the code, and stuck here.
unfoldable pub regenerate_all : ℕ → Instant → List (Ipv6Addr × ℕ) → Engine → Loop Engine
regenerate_all rounds now [] e = done e
regenerate_all rounds now (key ∷ keys) e = elim (get prefix_key key e.prefixes) [
  | none ↦ stuck
  | some p ↦ new_temp rounds now key.0 p e.rng >>= λ (temp, rng).
      regenerate_all rounds now keys (with_temp key temp rng e)
]

-- `drain(..len - MAX_TEMPS)`
abbrev pub newest : List Temp → List Temp
newest ts = drop (length ts - max_temps) ts

abbrev pub with_newest : Prefix → Prefix
with_newest p = record p { temps = newest p.temps }

-- What `expire` does before it regenerates.
unfoldable pub drop_expired : Instant → Engine → Engine
drop_expired now e0 =
    let e =
      solicit_again now
        (record e0 { expired_at = some now; routers = retain (λ t. ltb now t) e0.routers }) in
    record e {
      rdnss = retain (is_alive now) e.rdnss;
      dnssl = retain (is_alive now) e.dnssl;
      prefixes =
          map_values (with_valid_temps now) (retain (λ p. is_alive now p.valid_until) e.prefixes);
    }

abbrev pub cut_temps : Engine → Engine
cut_temps e = record e { prefixes = map_values with_newest e.prefixes }

unfoldable pub expire : ℕ → Instant → Engine → Loop Engine
expire rounds now e0 = do
  let e = drop_expired now e0
  e' ← regenerate_all rounds now (regenerate now e.config e.prefixes) e
  done (cut_temps e')
