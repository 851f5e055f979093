-- ===== src/Core/Hostname/Labels.antt =====
-- netd-core/src/hostname.rs: which names `check` takes.
use netd.Base.{
  ℕ, ◌≤◌, ◌≡◌, refl, sym, ap, ◌∙◌, ◌↔◌, inl, inr, true, false, none, List, [], ◌∷◌, arith,
  Bool-cases, Option-cases, length, All,
}
use mathlib.Core.Path.{subst}
use netd.Core.Hostname.{
  accepted, trim_start, trim_end, trim, is_allowed, is_whitespace, find_other, starts_with,
  ends_with, eq_ignore_ascii_case, localhost, check_trimmed, check,
}

-- A label: letters, digits and hyphens, one to 63 of them, with no hyphen at either end; not localhost
-- in any case of its letters.
pub record IsLabel (name : List ℕ) : Type 0 where
  size : (1 ≤ length name) × (length name ≤ 63)
  characters : All (λ c. is_allowed c ≡ true) name
  no_hyphen_first : starts_with b'-' name ≡ false
  no_hyphen_last : ends_with b'-' name ≡ false
  not_localhost : eq_ignore_ascii_case name localhost ≡ false

all_allowed : (name : List ℕ) → find_other name ≡ none → All (λ c. is_allowed c ≡ true) name
unfolding find_other
all_allowed [] h = tt
all_allowed (c ∷ cs) h = elim (Bool-cases (is_allowed c)) [
  | inl e ↦ (e, all_allowed cs (ground (arith, h, e)))
  | inr e ↦ absurd (ground (arith, h, e))
]

none_other : (name : List ℕ) → All (λ c. is_allowed c ≡ true) name → find_other name ≡ none
unfolding find_other
none_other [] h = refl
none_other (c ∷ cs) h = rw (h.0, find_other) (none_other cs h.1)

not_blank : (c : ℕ) → is_allowed c ≡ true → is_whitespace c ≡ false
not_blank c h = ground arith

trim_end-label : (name : List ℕ) → All (λ c. is_allowed c ≡ true) name → trim_end name ≡ name
unfolding trim_end
trim_end-label [] h = refl
trim_end-label (c ∷ cs) h = rw (not_blank c h.0, trim_end) (ap (λ r. c ∷ r) (trim_end-label cs h.1))

trim_start-label : (name : List ℕ) → All (λ c. is_allowed c ≡ true) name → trim_start name ≡ name
unfolding trim_start
trim_start-label [] h = refl
trim_start-label (c ∷ cs) h = rw (not_blank c h.0, trim_start) refl

check_trimmed-accepts : (name : List ℕ) → IsLabel name → check_trimmed name ≡ accepted name
unfolding check_trimmed
check_trimmed-accepts [] h = absurd (omega (arith, h.size))
check_trimmed-accepts (c ∷ cs) h =
    rw (none_other (c ∷ cs) h.characters, check_trimmed)
      (ground (arith, h.size, h.no_hyphen_first, h.no_hyphen_last, h.not_localhost))

check-accepts : (name : List ℕ) → IsLabel name → check name ≡ accepted name
unfolding check
check-accepts name h =
    ap check_trimmed
      (ap trim_end (trim_start-label name h.characters) ∙ trim_end-label name h.characters)
    ∙ check_trimmed-accepts name h

check_trimmed-IsLabel : (name n : List ℕ) → check_trimmed name ≡ accepted n → IsLabel n × (n ≡ name)
unfolding check_trimmed
check_trimmed-IsLabel [] n h = cc
check_trimmed-IsLabel (c ∷ cs) n h = elim (Option-cases (find_other (c ∷ cs))) [
  | inr (d, e) ↦ absurd (ground (arith, e, h))
  | inl e ↦
      let same : c ∷ cs ≡ n = ground (arith, e, h) in
      let label : IsLabel (c ∷ cs) = record {
        size = ground (arith, e, h);
        characters = all_allowed (c ∷ cs) e;
        no_hyphen_first = ground (arith, e, h);
        no_hyphen_last = ground (arith, e, h);
        not_localhost = ground (arith, e, h);
      } in
      (subst IsLabel same label, sym same)
]

-- `check` accepts what it is given if and only if that, without the white space around it, is a label;
-- what it returns is that label, and the answer for the label itself is the label again.
pub check-IsLabel :
    (answered n : List ℕ)
    → ((check answered ≡ accepted n) ↔ ((n ≡ trim answered) × IsLabel n))
      × (check answered ≡ accepted n → check n ≡ accepted n)
unfolding check
check-IsLabel answered n =
    let one = check_trimmed-IsLabel (trim answered) n in
    (
      (
        λ h. let (label, same) = one h in (same, label),
        λ h. ap check_trimmed (sym h.0) ∙ check_trimmed-accepts n h.1,
      ),
      λ h. check-accepts n (one h).0,
    )
