-- ===== src/Core/Policy/Written.antt =====
-- netd-core/src/policy.rs: what the rules engine pnp-core reads as a JOIN of a profile, as its parser of
-- actions documents it, against what `join_target` reads.
use netd.Base.{
  ℕ, ◌≡◌, ◌≢◌, refl, ap, ◌∙◌, ◌⊎◌, inl, inr, true, false, not, some, List, [], ◌∷◌, ◌++◌, map,
  arith, map_option, length, length-append, filter, ltb,
}
use netd.Base.Members.{Some}
use netd.Base.Text.{codes}
use netd.Base.Bytes.{bytes_eq, bytes_eq_refl}
use netd.Core.Hostname.{eq_ignore_ascii_case}
use netd.Core.Profile.Values.{lower}
use netd.Wire6.Names.{to_ascii_lowercase}
use netd.Core.Policy.{
  RegValue, RuleInput, RuleInputs, rule_input, one_rule, is_ascii_whitespace, to_slash,
  before_paren, join_target,
}
use netd.Core.Policy.Abstains.{joins, value_names, values_name, rule_names, rules_name}

-- A space, a tab, a line feed, a form feed or a carriage return.
abbrev pub IsSpace : ℕ → Type 0
IsSpace c = (c ≡ 32) ⊎ (c ≡ 9) ⊎ (c ≡ 10) ⊎ (c ≡ 12) ⊎ (c ≡ 13)

-- The second text is the first without its white space.
pub data IsCompact : List ℕ → List ℕ → Type 0 where
  ended : IsCompact [] []
  dropped : {c : ℕ} {cs ds : List ℕ} → IsSpace c → IsCompact cs ds → IsCompact (c ∷ cs) ds
  kept : {c : ℕ} {cs ds : List ℕ} → (¬ IsSpace c) → IsCompact cs ds → IsCompact (c ∷ cs) (c ∷ ds)

-- The second text is the first with a slash for each backslash.
pub data IsFolded : List ℕ → List ℕ → Type 0 where
  ended : IsFolded [] []
  backslash : {cs ds : List ℕ} → IsFolded cs ds → IsFolded (b'\\' ∷ cs) (b'/' ∷ ds)
  other : {c : ℕ} {cs ds : List ℕ} → c ≢ b'\\' → IsFolded cs ds → IsFolded (c ∷ cs) (c ∷ ds)

-- An action that joins the profile `q`: JOIN in any case, and in parentheses the name of the profile,
-- which may have backslashes for slashes; white space counts for nothing.
pub data IsJoin (item q : List ℕ) : Type 0 where
  written :
      (j o i n : ℕ) (arg : List ℕ)
      → (j ≡ b'J') ⊎ (j ≡ b'j')
      → (o ≡ b'O') ⊎ (o ≡ b'o')
      → (i ≡ b'I') ⊎ (i ≡ b'i')
      → (n ≡ b'N') ⊎ (n ≡ b'n')
      → IsCompact item (j ∷ o ∷ i ∷ n ∷ b'(' ∷ (arg ++ (b')' ∷ [])))
      → IsFolded arg q
      → IsJoin item q

-- A value that joins the profile: the list "Actions", its name in any case, has such an action.
pub data ValueJoins (q : List ℕ) : List ℕ → RegValue → Type 0 where
  by_action :
      (name : List ℕ) (items : List (List ℕ))
      → eq_ignore_ascii_case name (codes "Actions") ≡ true
      → Some (λ item. IsJoin item q) items
      → ValueJoins q name (RegValue.list items)

-- A rule that joins the profile, or has a subrule that does.
mutual
  pub data RuleJoins (q : List ℕ) : RuleInput → Type 0 where
    here :
        (name : List ℕ) (values : List (List ℕ × RegValue)) (children : RuleInputs)
        → Some (λ v. ValueJoins q v.0 v.1) values
        → RuleJoins q (rule_input name values children)
    below :
        (name : List ℕ) (values : List (List ℕ × RegValue)) (children : RuleInputs)
        → RulesJoin q children
        → RuleJoins q (rule_input name values children)

  pub data RulesJoin (q : List ℕ) : RuleInputs → Type 0 where
    first : (r : RuleInput) (rs : RuleInputs) → RuleJoins q r → RulesJoin q (one_rule r rs)
    later : (r : RuleInput) (rs : RuleInputs) → RulesJoin q rs → RulesJoin q (one_rule r rs)

IsCompact-filter :
    {cs ds : List ℕ} → IsCompact cs ds → filter (λ c. not (is_ascii_whitespace c)) cs ≡ ds
unfolding filter
IsCompact-filter ended = refl
IsCompact-filter (dropped {c = c} s k) =
    let space : is_ascii_whitespace c ≡ true = ground (arith, s) in
    rw (space, filter) (IsCompact-filter k)
IsCompact-filter (kept {c = c} s k) =
    let ink : is_ascii_whitespace c ≡ false = ground (arith, s) in
    rw (ink, filter) (ap (λ t. c ∷ t) (IsCompact-filter k))

IsFolded-map : {cs ds : List ℕ} → IsFolded cs ds → map to_slash cs ≡ ds
IsFolded-map ended = refl
IsFolded-map (backslash k) = ap (λ t. b'/' ∷ t) (IsFolded-map k)
IsFolded-map (other {c = c} s k) =
    let same : to_slash c ≡ c = ground (arith, s) in rw same (ap (λ t. c ∷ t) (IsFolded-map k))

before_paren_lem : (arg : List ℕ) → before_paren (arg ++ (b')' ∷ [])) ≡ some arg
unfolding before_paren
before_paren_lem [] = refl
before_paren_lem (c ∷ []) = refl
before_paren_lem (c ∷ d ∷ cs) = ap (map_option (λ r. c ∷ r)) (before_paren_lem (d ∷ cs))

lowered :
    (upper c : ℕ)
    → (c ≡ upper) ⊎ (c ≡ to_ascii_lowercase upper)
    → to_ascii_lowercase (to_ascii_lowercase upper) ≡ to_ascii_lowercase upper
    → to_ascii_lowercase c ≡ to_ascii_lowercase upper
lowered upper c h twice = elim h [
  | inl e ↦ ap to_ascii_lowercase e
  | inr e ↦ ap to_ascii_lowercase e ∙ twice
]

is_join :
    (j o i n : ℕ)
    → (j ≡ b'J') ⊎ (j ≡ b'j')
    → (o ≡ b'O') ⊎ (o ≡ b'o')
    → (i ≡ b'I') ⊎ (i ≡ b'i')
    → (n ≡ b'N') ⊎ (n ≡ b'n')
    → eq_ignore_ascii_case (j ∷ o ∷ i ∷ n ∷ b'(' ∷ []) (codes "join(") ≡ true
unfolding bytes_eq
is_join j o i n a b c d =
    rw (lowered b'J' j a refl, lowered b'O' o b refl, lowered b'I' i c refl, lowered b'N' n d refl)
      refl

-- `join_target` reads the profile of every such action.
join_target_lem : (item q : List ℕ) → IsJoin item q → join_target item ≡ some (lower q)
unfolding join_target
join_target_lem item q (written j o i n arg a b c d k f) =
    let long : ltb (length (j ∷ o ∷ i ∷ n ∷ b'(' ∷ (arg ++ (b')' ∷ [])))) 6 ≡ false =
      ground (arith, length-append arg (b')' ∷ [])) in
    rw (IsCompact-filter k) (
      rw (is_join j o i n a b c d) (rw (before_paren_lem arg) (rw (IsFolded-map f) (rw long refl))))

-- A rule that joins a profile has a JOIN of it.
joins_lem :
    (q : List ℕ) (items : List (List ℕ))
    → Some (λ item. IsJoin item q) items
    → joins (lower q) items ≡ true
unfolding joins
joins_lem q [] h = absurd h
joins_lem q (item ∷ items) h = elim h [
  | inl w ↦ rw (join_target_lem item q w) (ground (arith, bytes_eq_refl (lower q)))
  | inr m ↦ let more = joins_lem q items m in ground (arith, more)
]

value_names_lem :
    (q name : List ℕ) (v : RegValue) → ValueJoins q name v → value_names (lower q) name v ≡ true
value_names_lem q _ _ (by_action name items a m) =
    let found = joins_lem q items m in ground (arith, a, found)

values_name_lem :
    (q : List ℕ) (values : List (List ℕ × RegValue))
    → Some (λ v. ValueJoins q v.0 v.1) values
    → values_name (lower q) values ≡ true
unfolding values_name
values_name_lem q [] h = absurd h
values_name_lem q ((name, v) ∷ values) h = elim h [
  | inl w ↦ let found = value_names_lem q name v w in ground (arith, found)
  | inr m ↦ let more = values_name_lem q values m in ground (arith, more)
]

mutual
  unfolding rule_names

  rule_names_lem : (q : List ℕ) (r : RuleInput) → RuleJoins q r → rule_names (lower q) r ≡ true
  rule_names_lem q _ (here name values children m) =
      let found = values_name_lem q values m in ground (arith, found)
  rule_names_lem q _ (below name values children m) =
      let found = rules_name_lem q children m in ground (arith, found)

  pub rules_name_lem :
      (q : List ℕ) (rs : RuleInputs) → RulesJoin q rs → rules_name (lower q) rs ≡ true
  rules_name_lem q _ (first r rs m) = let found = rule_names_lem q r m in ground (arith, found)
  rules_name_lem q _ (later r rs m) = let found = rules_name_lem q rs m in ground (arith, found)
