-- ===== src/Dhcp4/Search/Ends.antt =====
-- The two loops of `decode_domain_search` (dhcp4/src/packet.rs) and their fuel.
use netd.Base.{
  ℕ, zero, suc, ◌+◌, ◌-◌, ◌*◌, ◌≤◌, ◌<◌, ◌≡◌, refl, ap, ◌≢◌, ◌⊎◌, inl, inr, Bool, true, false,
  Option, none, some, List, [], ◌∷◌, ◌++◌, arith, if◌then◌else◌, Option-cases, Loop, done, stuck,
  run_or-done, length, get_elem?, take, drop,
}
use netd.Dhcp4.Search.{
  Name, name_loop, search_loop, name_fuel, decode_domain_search, push_name, target,
}
use netd.Base.Utf8.{from_utf8_lossy}

-- What the inner loop may still take: `n` bytes up to the end, and `j` jumps.
abbrev budget : ℕ → ℕ → ℕ → ℕ
budget len p hops = (16 - hops) * (len + 1) + (len + 1 - p)

one_less : (hops : ℕ) → hops < 16 → 16 - hops ≡ (16 - (hops + 1)) + 1
one_less hops h = omega arith

jump_budget : (len p hops t : ℕ) → hops < 16 → p < len → budget len t (hops + 1) < budget len p hops
jump_budget len p hops t h k = omega (arith, ap (λ (j : ℕ). j * (len + 1)) (one_less hops h))

get_elem?-lt : (v : List ℕ) (p b : ℕ) → get_elem? v p ≡ some b → p < length v
get_elem?-lt [] p b h = cc
get_elem?-lt (x ∷ v) zero b h = omega arith
get_elem?-lt (x ∷ v) (suc p) b h = omega (arith, get_elem?-lt v p b h)

step_budget :
    (len p hops n : ℕ) → p + 1 + n ≤ len → budget len (p + (1 + n)) hops < budget len p hops
step_budget len p hops n h = omega arith

-- The rounds that a jump and a label lead to.
module _ (fuel : ℕ) (v : List ℕ) (p pos : ℕ) (jumped : Bool) (hops : ℕ) (labels : List (List ℕ))
    (len : ℕ) (h : hops ≤ 16) (b : budget (length v) p hops < suc fuel) (inside : p < length v)
    (ih : (q pos' : ℕ) (j : Bool) (k : ℕ) (ls : List (List ℕ))
      → k ≤ 16
      → budget (length v) q k < fuel
      → name_loop fuel v q pos' j k ls ≢ stuck) where
  label_goes_on :
      p + 1 + len ≤ length v
      → (ls : List (List ℕ)) → name_loop fuel v (p + (1 + len)) pos jumped hops ls ≢ stuck
  label_goes_on fits ls =
      ih (p + (1 + len)) pos jumped hops ls h
        (omega (arith, step_budget (length v) p hops len fits))

  jump_goes_on : (t pos' : ℕ) → hops < 16 → name_loop fuel v t pos' true (hops + 1) labels ≢ stuck
  jump_goes_on t pos' k =
      ih t pos' true (hops + 1) labels (omega arith)
        (omega (arith, jump_budget (length v) p hops t k inside))

name_loop-ne-stuck :
    (fuel : ℕ) (v : List ℕ) (p pos : ℕ) (jumped : Bool) (hops : ℕ) (labels : List (List ℕ))
    → hops ≤ 16
    → budget (length v) p hops < fuel
    → name_loop fuel v p pos jumped hops labels ≢ stuck
unfolding name_loop
name_loop-ne-stuck zero v p pos jumped hops labels h b = absurd (omega arith)
name_loop-ne-stuck (suc fuel) v p pos jumped hops labels h b = elim (Option-cases (get_elem? v p)) [
  | inl e ↦ rw (e, name_loop) (λ x. cc)
  | inr (len, e) ↦
      let go = name_loop-ne-stuck fuel v in
      let inside = get_elem?-lt v p len e in
      let label = λ (fits : p + 1 + len ≤ length v).
        label_goes_on fuel v p pos jumped hops labels len h b inside go fits
          (labels ++ (from_utf8_lossy (take len (drop (p + 1) v)) ∷ [])) in
      elim (Option-cases (get_elem? v (p + 1))) [
        | inl f ↦ rw (e, f, name_loop) (ground (arith, label))
        | inr (lo, f) ↦
            let jump =
              jump_goes_on fuel v p pos jumped hops labels len h b inside go (target len lo)
                (if jumped then pos else p + 2) in
            rw (e, f, name_loop) (ground (arith, label, jump))
      ]
]

-- A name ends past its start, unless it starts after a jump: then `pos` stays.
name_loop-pos :
    (fuel : ℕ) (v : List ℕ) (p pos : ℕ) (jumped : Bool) (hops : ℕ) (labels : List (List ℕ))
    (n : Name)
    → name_loop fuel v p pos jumped hops labels ≡ done (some n)
    → ((jumped ≡ true) × (n.pos ≡ pos)) ⊎ ((jumped ≡ false) × (p < n.pos))
unfolding name_loop
name_loop-pos zero v p pos jumped hops labels n h = cc
name_loop-pos (suc fuel) v p pos jumped hops labels n h = elim (Option-cases (get_elem? v p)) [
  | inl e ↦ absurd (ground (arith, e))
  | inr (len, e) ↦
      let label =
        name_loop-pos fuel v (p + (1 + len)) pos jumped hops
          (labels ++ (from_utf8_lossy (take len (drop (p + 1) v)) ∷ [])) n in
      elim (Option-cases (get_elem? v (p + 1))) [
        | inl f ↦ ground (arith, e, f, label)
        | inr (lo, f) ↦ ground (
          arith,
          e,
          f,
          label,
          name_loop-pos fuel v (target len lo) (if jumped then pos else p + 2) true (hops + 1)
              labels n,
        )
      ]
]

start_budget : (len pos : ℕ) → budget len pos 0 < 18 * (len + 1)
start_budget len pos = omega arith

search_loop-ne-stuck :
    (fuel : ℕ) (v : List ℕ) (pos : ℕ) (out : List (List ℕ))
    → 0 < fuel
    → length v < fuel + pos
    → search_loop fuel v pos out ≢ stuck
unfolding search_loop
search_loop-ne-stuck zero v pos out z h = absurd (omega arith)
search_loop-ne-stuck (suc fuel) v pos out z h =
    go (search_loop-ne-stuck fuel v) (name_loop (name_fuel v) v pos pos false 0 []) refl
  where
    go :
        ((q : ℕ) (o : List (List ℕ))
          → 0 < fuel
          → length v < fuel + q
          → search_loop fuel v q o ≢ stuck)
        → (r : Loop (Option Name)) → name_loop (name_fuel v) v pos pos false 0 [] ≡ r
        → search_loop (suc fuel) v pos out ≢ stuck
    go more stuck e = absurd (
        name_loop-ne-stuck (name_fuel v) v pos pos false 0 [] (omega arith)
          (start_budget (length v) pos) e)
    go more (done none) e = rw (e, search_loop) (ground arith)
    go more (done (some n)) e =
        rw (e, search_loop)
          (ground (
            arith,
            name_loop-pos (name_fuel v) v pos pos false 0 [] n e,
            more n.pos (push_name out n.labels),
          ))

-- Both loops end on every input: the search list never runs out of fuel.
pub decode_domain_search-returns :
    (v : List ℕ) → search_loop (length v + 1) v 0 [] ≡ done (decode_domain_search v)
unfolding decode_domain_search
decode_domain_search-returns v =
    run_or-done [] (search_loop (length v + 1) v 0 [])
      (search_loop-ne-stuck (length v + 1) v 0 [] (omega arith) (omega arith))
