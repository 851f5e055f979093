-- ===== src/Dhcp4/Search.antt =====
-- dhcp4/src/packet.rs, `decode_domain_search`: the RFC 3397 domain search list, DNS names with
-- compression pointers.
pub mod Ends
use netd.Base.{
  ℕ, zero, suc, ◌+◌, ◌*◌, ◌≤◌, ◌<◌, bit_and, bit_or, Bool, true, false, ◌&&◌, not, Option, none,
  some, List, [], ◌∷◌, ◌++◌, ltb, leb, ◌==◌, if◌then◌else◌, length, take, drop, get_elem?, Loop,
  done, stuck, run_or,
}
use netd.Base.Bytes.{byte_at}
use netd.Base.Utf8.{from_utf8_lossy}

-- `labels.join(".")`
join : List (List ℕ) → List ℕ
join [] = []
join (l ∷ []) = l
join (l ∷ m ∷ ls) = l ++ (b'.' ∷ join (m ∷ ls))

abbrev is_pointer : ℕ → Bool
is_pointer len = bit_and len 0xc0 == 0xc0

-- Where a pointer points.
abbrev target : ℕ → ℕ → ℕ
target len lo = bit_or (bit_and len 0x3f * 256) lo

pub record Name : Type 0 where
  pub labels : List (List ℕ)
  pub pos : ℕ
  pub jumped : Bool
  pub p : ℕ

-- The inner `loop`, with the variables that it assigns as arguments. `none` is its `return out`, and
-- a `Name` is what stands in the variables at its `break`.
name_loop : ℕ → List ℕ → ℕ → ℕ → Bool → ℕ → List (List ℕ) → Loop (Option Name)
name_loop zero v p pos jumped hops labels = stuck
name_loop (suc fuel) v p pos jumped hops labels = elim (get_elem? v p) [
  | none ↦ done none
  | some len ↦
      let follow : Loop (Option Name) = elim (get_elem? v (p + 1)) [
        | none ↦ done none
        | some lo ↦
            let pos' = if jumped then pos else p + 2 in
            let next = name_loop fuel v (target len lo) pos' true (hops + 1) labels in
            if ltb 16 (hops + 1) then done none else next
      ] in
      let label = from_utf8_lossy (take len (drop (p + 1) v)) in
      let next = name_loop fuel v (p + (1 + len)) pos jumped hops (labels ++ (label ∷ [])) in
      if len == 0
      then done (
          some (record {
            labels = labels;
            pos = if jumped then pos else p + 1;
            jumped = jumped;
            p = p;
          }))
      else if is_pointer len
      then follow
      else if leb (p + 1 + len) (length v)
      then next
      else done none
]

-- Between two jumps the cursor moves up to the end, and the seventeenth jump returns.
abbrev name_fuel : List ℕ → ℕ
name_fuel v = 18 * (length v + 1)

abbrev push_name : List (List ℕ) → List (List ℕ) → List (List ℕ)
push_name out [] = out
push_name out (l ∷ ls) = out ++ (join (l ∷ ls) ∷ [])

-- The outer `while`.
pub search_loop : ℕ → List ℕ → ℕ → List (List ℕ) → Loop (List (List ℕ))
search_loop zero v pos out = stuck
search_loop (suc fuel) v pos out =
    let round : Loop (List (List ℕ)) = elim (name_loop (name_fuel v) v pos pos false 0 []) [
      | stuck ↦ stuck
      | done none ↦ done out
      | done (some n) ↦
          let out' = push_name out n.labels in
          let more = search_loop fuel v n.pos out' in
          if not n.jumped && n.pos == n.p then done out' else more
    ] in
    if ltb pos (length v) then round else done out

-- Every round moves `pos` up, so one more than the length is fuel enough.
unfoldable pub decode_domain_search : List ℕ → List (List ℕ)
unfolding search_loop name_loop join
decode_domain_search v = run_or [] (search_loop (length v + 1) v 0 [])
