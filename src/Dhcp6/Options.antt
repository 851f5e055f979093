-- ===== src/Dhcp6/Options.antt =====
-- dhcp6/src/lib.rs: the option codes, `push_option`, the walk over the options region, and
-- `refresh_time`.
use netd.Base.{
  ℕ, zero, suc, ◌+◌, ◌/◌, ◌%◌, ◌≤◌, ◌<◌, ◌≡◌, refl, sym, ap, ◌∙◌, ◌≢◌, inl, inr, ◌&&◌, Option, none,
  some, List, [], ◌∷◌, ◌++◌, arith, ltb, leb, ◌==◌, if◌then◌else◌, Option-cases, Loop, done, stuck,
  run_or, run_or-done, length, take, drop, All, take-append, drop-append, length-append,
  length-drop,
}
use netd.Base.Bytes.{be16, from_be16, from_be32, byte_at, as_u16, u16_mod, from_be16-be16}
use netd.Base.Time.{Duration, from_secs}
use mathlib.Core.List.{append_assoc, append-nil}

abbrev pub option_client_id : ℕ
option_client_id = 1

abbrev pub option_server_id : ℕ
option_server_id = 2

abbrev pub option_oro : ℕ
option_oro = 6

abbrev pub option_elapsed_time : ℕ
option_elapsed_time = 8

abbrev pub option_dns_servers : ℕ
option_dns_servers = 23

abbrev pub option_domain_list : ℕ
option_domain_list = 24

abbrev pub option_information_refresh_time : ℕ
option_information_refresh_time = 32

unfoldable pub push_option : List ℕ → ℕ → List ℕ → List ℕ
push_option out code v = out ++ (be16 code ++ (be16 (as_u16 (length v)) ++ v))

-- One call of the iterator: the option at the front and what follows it.
next_option : List ℕ → Option ((ℕ × List ℕ) × List ℕ)
next_option bytes =
    let code = from_be16 (byte_at bytes 0) (byte_at bytes 1) in
    let len = from_be16 (byte_at bytes 2) (byte_at bytes 3) in
    if ltb (length bytes) 4
    then none
    else if ltb (length bytes) (4 + len)
    then none
    else some ((code, take len (drop 4 bytes)), drop (4 + len) bytes)

-- What the iterator yields, behind what it has yielded; the fuel is used up by its calls.
pub options_loop : ℕ → List ℕ → List (ℕ × List ℕ) → Loop (List (ℕ × List ℕ))
options_loop zero bytes acc = stuck
options_loop (suc fuel) bytes acc = elim (next_option bytes) [
  | none ↦ done acc
  | some (o, rest) ↦ options_loop fuel rest (acc ++ (o ∷ []))
]

-- An option takes four bytes at least.
unfoldable pub options : List ℕ → List (ℕ × List ℕ)
unfolding options_loop next_option
options bytes = run_or [] (options_loop (length bytes + 1) bytes [])

-- The first refresh time of four bytes.
find_refresh : List (ℕ × List ℕ) → Option Duration
find_refresh [] = none
find_refresh ((code, v) ∷ os) =
    if code == option_information_refresh_time && length v == 4
    then some (from_secs (from_be32 (byte_at v 0) (byte_at v 1) (byte_at v 2) (byte_at v 3)))
    else find_refresh os

unfoldable pub refresh_time : List ℕ → Option Duration
unfolding find_refresh
refresh_time datagram =
    if leb 4 (length datagram) then find_refresh (options (drop 4 datagram)) else none

next_option-shorter :
    (bytes rest : List ℕ) (o : ℕ × List ℕ)
    → next_option bytes ≡ some (o, rest)
    → length rest < length bytes
unfolding next_option
next_option-shorter bytes rest o h =
    ground (arith, length-drop (4 + from_be16 (byte_at bytes 2) (byte_at bytes 3)) bytes)

options_loop-ne-stuck :
    (fuel : ℕ) (bytes : List ℕ) (acc : List (ℕ × List ℕ))
    → length bytes < fuel
    → options_loop fuel bytes acc ≢ stuck
unfolding options_loop
options_loop-ne-stuck zero bytes acc h = absurd (omega arith)
options_loop-ne-stuck (suc fuel) bytes acc h = elim (Option-cases (next_option bytes)) [
  | inl e ↦ rw (e, options_loop) (λ x. cc)
  | inr ((o, rest), e) ↦
      rw (e, options_loop)
        (options_loop-ne-stuck fuel rest (acc ++ (o ∷ []))
          (omega (arith, next_option-shorter bytes rest o e)))
]

-- The walk ends on every input.
pub options-returns :
    (bytes : List ℕ) → options_loop (length bytes + 1) bytes [] ≡ done (options bytes)
unfolding options
options-returns bytes =
    run_or-done [] (options_loop (length bytes + 1) bytes [])
      (options_loop-ne-stuck (length bytes + 1) bytes [] (omega arith))

-- The options region that `push_option` writes.
pub wire : List (ℕ × List ℕ) → List ℕ
wire [] = []
wire ((code, v) ∷ os) = be16 code ++ (be16 (as_u16 (length v)) ++ (v ++ wire os))

abbrev pub Fits : ℕ × List ℕ → Type 0
Fits o = (o.0 < u16_mod) × (length o.1 < u16_mod)

fields_then :
    (head v rest : List ℕ) → length head ≡ 4 → drop (4 + length v) (head ++ (v ++ rest)) ≡ rest
fields_then head v rest h =
    let e : 4 + length v ≡ length (head ++ v) =
      sym (length-append head v ∙ ap (λ n. n + length v) h) in
    rw (e, ← append_assoc head v rest) (drop-append (head ++ v) rest)

next_option-wire :
    (code : ℕ) (v rest : List ℕ)
    → Fits (code, v)
    → next_option (be16 code ++ (be16 (as_u16 (length v)) ++ (v ++ rest))) ≡ some ((code, v), rest)
unfolding next_option
next_option-wire code v rest f =
    let c : from_be16 (code / 256 % 256) (code % 256) ≡ code = from_be16-be16 code f.0 in
    let n : as_u16 (length v) ≡ length v = omega (arith, f) in
    let l : from_be16 (length v / 256 % 256) (length v % 256) ≡ length v =
      from_be16-be16 (length v) f.1 in
    rw (n, c, l)
      (ground (
        arith,
        length-append v rest,
        take-append v rest,
        drop-append v rest,
        fields_then (be16 code ++ be16 (length v)) v rest refl,
      ))

length-wire : (os : List (ℕ × List ℕ)) → length os ≤ length (wire os)
unfolding wire
length-wire [] = omega arith
length-wire ((code, v) ∷ os) = omega (arith, length-wire os, length-append v (wire os))

options_loop-end : (fuel : ℕ) (acc : List (ℕ × List ℕ)) → options_loop (suc fuel) [] acc ≡ done acc
unfolding options_loop next_option
options_loop-end fuel acc = refl

options_loop-wire :
    (os acc : List (ℕ × List ℕ)) (fuel : ℕ)
    → All Fits os
    → length os < fuel
    → options_loop fuel (wire os) acc ≡ done (acc ++ os)
unfolding options_loop wire
options_loop-wire os acc zero f h = absurd (omega arith)
options_loop-wire [] acc (suc fuel) f h = options_loop-end fuel acc ∙ ap done (sym (append-nil acc))
options_loop-wire ((code, v) ∷ os) acc (suc fuel) f h =
    rw (next_option-wire code v (wire os) f.0, options_loop)
      (rw (← append_assoc acc ((code, v) ∷ []) os)
        (options_loop-wire os (acc ++ ((code, v) ∷ [])) fuel f.1 (omega arith)))

pub options-wire : (os : List (ℕ × List ℕ)) → All Fits os → options (wire os) ≡ os
options-wire os f = ap (run_or []) (
    sym (options-returns (wire os))
    ∙ options_loop-wire os [] (length (wire os) + 1) f (omega (arith, length-wire os)))

-- The options pushed one after the other behind `out`.
unfoldable pub push_all : List ℕ → List (ℕ × List ℕ) → List ℕ
push_all out [] = out
push_all out ((code, v) ∷ os) = push_all (push_option out code v) os

pub push_all-wire : (out : List ℕ) (os : List (ℕ × List ℕ)) → push_all out os ≡ out ++ wire os
unfolding push_all push_option wire
push_all-wire out [] = sym (append-nil out)
push_all-wire out ((code, v) ∷ os) =
    push_all-wire (push_option out code v) os
    ∙ append_assoc out (be16 code ++ (be16 (as_u16 (length v)) ++ v)) (wire os)

-- Whatever options are pushed, the walk reads them back in their order, where every code and every
-- length fits in 16 bits.
pub options-push_all : (os : List (ℕ × List ℕ)) → All Fits os → options (push_all [] os) ≡ os
options-push_all os f = rw (push_all-wire [] os) (options-wire os f)
