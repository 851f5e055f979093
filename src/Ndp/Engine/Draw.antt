-- ===== src/Ndp/Engine/Draw.antt =====
-- ndp/src/engine.rs, `new_temp`: a temporary address with an identifier drawn at random.
use netd.Base.{
  ℕ, zero, suc, ◌+◌, ◌-◌, ◌%◌, min, Bool, false, ◌&&◌, ◌||◌, not, Option, none, some, List, [], ◌∷◌,
  ◌++◌, ◌==◌, if◌then◌else◌, Loop, done, stuck,
}
use netd.Base.Rounds.{◌>>=◌}
use netd.Base.Bytes.{be32}
use netd.Base.Time.{Instant, Duration, from_secs}
use netd.Wire6.{Ipv6Addr}
use netd.Ndp.Engine.{Temp, Prefix, next_random, join, reserved_iid, temp_preferred, temp_valid}

unfoldable pub is_temp : List Temp → Ipv6Addr → Bool
is_temp [] address = false
is_temp (t ∷ ts) address = t.address == address || is_temp ts address

abbrev pub taken : Prefix → Ipv6Addr → Bool
taken p address = address == p.stable || is_temp p.temps address

-- The identifier that the two draws after `rng` give.
abbrev pub iid_after : ℕ → List ℕ
iid_after rng = be32 (next_random rng) ++ be32 (next_random (next_random rng))

-- The `loop`: the identifier and the generator behind it.
unfoldable pub draw : ℕ → Ipv6Addr → Prefix → ℕ → Loop (List ℕ × ℕ)
draw zero prefix p rng = stuck
draw (suc rounds) prefix p rng =
    let iid = iid_after rng in
    let rng' = next_random (next_random rng) in
    let more = draw rounds prefix p rng' in
    if not (reserved_iid iid) && not (taken p (join prefix iid)) then done (iid, rng') else more

abbrev pub clamp : Instant → Duration → Option Instant → Instant
clamp now cap none = now + cap
clamp now cap (some limit) = min (now + cap) limit

-- RFC 8981 §3.8, up to ten minutes.
abbrev pub desync : ℕ → Duration
desync r = from_secs (r % 600)

-- The address of an identifier, `r` being the draw behind it.
abbrev pub temp_of : Instant → Ipv6Addr → Prefix → List ℕ → ℕ → Temp
temp_of now prefix p iid r = record {
  address = join prefix iid;
  preferred_until = clamp now (temp_preferred - desync r) p.preferred_until;
  valid_until = clamp now temp_valid p.valid_until;
}

-- On `rounds` rounds of the loop at most; with the generator that is left.
unfoldable pub new_temp : ℕ → Instant → Ipv6Addr → Prefix → ℕ → Loop (Temp × ℕ)
new_temp rounds now prefix p rng = do
  (iid, rng1) ← draw rounds prefix p rng
  let r = next_random rng1
  done (temp_of now prefix p iid r, r)
