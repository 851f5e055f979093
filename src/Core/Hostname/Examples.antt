-- ===== src/Core/Hostname/Examples.antt =====
-- Runs of the model of netd-core/src/hostname.rs.
use netd.Base.{ℕ, ◌≡◌, refl, ◌↔◌, List, [], ◌∷◌}
use netd.Base.Bytes.{bytes_eq}
use netd.Core.Hostname.{
  accepted, refused, has_dot, is_localhost, trim, trim_start, trim_end, find_other, ends_with,
  check_trimmed, check,
}
use netd.Core.Hostname.Labels.{IsLabel, check-IsLabel}

-- A name between blanks.
abbrev typed : List ℕ
typed = b' ' ∷ b'W' ∷ b'S' ∷ b'-' ∷ b'0' ∷ b'1' ∷ b' ' ∷ []

abbrev name : List ℕ
name = b'W' ∷ b'S' ∷ b'-' ∷ b'0' ∷ b'1' ∷ []

typed-accepted : check typed ≡ accepted name
unfolding check check_trimmed trim_start trim_end find_other ends_with bytes_eq
typed-accepted = refl

dotted_refused : check (b'a' ∷ b'.' ∷ b'b' ∷ []) ≡ refused has_dot
unfolding check check_trimmed trim_start trim_end find_other
dotted_refused = refl

capital_localhost_refused :
    check (b'L' ∷ b'o' ∷ b'c' ∷ b'a' ∷ b'l' ∷ b'H' ∷ b'o' ∷ b's' ∷ b't' ∷ []) ≡ refused is_localhost
unfolding check check_trimmed trim_start trim_end find_other ends_with bytes_eq
capital_localhost_refused = refl

check-IsLabel_example :
    ((check typed ≡ accepted name) ↔ ((name ≡ trim typed) × IsLabel name))
    × (check typed ≡ accepted name → check name ≡ accepted name)
check-IsLabel_example = check-IsLabel typed name
