-- ===== src/Core/Policy/Abstains.antt =====
-- netd-core/src/policy.rs: a rule that names a disabled profile.
use netd.Base.{
  ℕ, ◌≡◌, refl, ap, inl, inr, Bool, true, false, ◌&&◌, ◌||◌, Option, none, some, List, [], ◌∷◌, map,
  arith, Bool-cases, Option-cases, filter,
}
use mathlib.Core.Path.{subst}
use netd.Base.Bytes.{bytes_eq, bytes_eq_sound}
use netd.Base.Text.{codes}
use netd.Core.Raw.{RawValue, RawKey, RawKeys, raw_key, no_keys, one_more}
use netd.Core.Profile.Tree.{Profiles, path_of}
use netd.Core.Policy.{
  RegValue, RuleInput, RuleInputs, rule_input, no_rules, one_rule, Built, built, refused,
  then_build, join_target, is_actions, target_off, lower_item, lower_value, lower_values,
  lower_rule, lower_rules,
}

abbrev pub is_target : List ℕ → Option (List ℕ) → Bool
is_target t none = false
is_target t (some u) = bytes_eq u t

-- Some item is a JOIN of the profile `t`.
unfoldable pub joins : List ℕ → List (List ℕ) → Bool
joins t [] = false
joins t (item ∷ items) = is_target t (join_target item) || joins t items

abbrev pub value_names : List ℕ → List ℕ → RegValue → Bool
value_names t name (RegValue.list items) = is_actions name && joins t items
value_names t name (RegValue.int i) = false
value_names t name (RegValue.str s) = false

unfoldable pub values_name : List ℕ → List (List ℕ × RegValue) → Bool
values_name t [] = false
values_name t ((name, v) ∷ vs) = value_names t name v || values_name t vs

-- Some rule's actions have a JOIN of the profile `t`.
unfoldable mutual
  pub rule_names : List ℕ → RuleInput → Bool
  rule_names t (rule_input name values children) = values_name t values || rules_name t children

  pub rules_name : List ℕ → RuleInputs → Bool
  rules_name t no_rules = false
  rules_name t (one_rule r rs) = rule_names t r || rules_name t rs

pub then_build-eq-built :
    {E A B : Type 0} (m : Built E A) (f : A → Built E B) (b : B)
    → then_build m f ≡ built b
    → (a : A) × (m ≡ built a) × (f a ≡ built b)
then_build-eq-built (built a) f b h = (a, refl, h)
then_build-eq-built (refused r) f b h = cc

pub built_transport :
    {E A : Type 0} (P : A → Type 0) (a b : A) → ◌≡◌ {A = Built E A} (built a) (built b) → P a → P b
built_transport P a b h p = subst P (ground arith) p

null_joins_nothing : join_target (codes "NULL") ≡ none
unfolding join_target filter bytes_eq
null_joins_nothing = refl

-- Without the disabled profile `t`, whatever is lowered names it nowhere.
module _ (profiles : Profiles) (t : List ℕ) (off : target_off profiles (some t) ≡ true) where
  lower_item_lem :
      (item : List ℕ) → is_target t (join_target (lower_item profiles true item)) ≡ false
  unfolding lower_item
  lower_item_lem item = elim (Bool-cases (target_off profiles (join_target item))) [
    | inl d ↦ rw (d, null_joins_nothing) refl
    | inr d ↦ rw d (elim (Option-cases (join_target item)) [
      | inl n ↦ rw n refl
      | inr (u, s) ↦ rw s (elim (Bool-cases (bytes_eq u t)) [
        | inr b ↦ b
        | inl b ↦
            let same = ap (λ x. target_off profiles (some x)) (bytes_eq_sound u t b) in
            let kept = ap (target_off profiles) s in ground (arith, d, kept, same, off)
      ])
    ])
  ]

  joins_lowered : (items : List (List ℕ)) → joins t (map (lower_item profiles true) items) ≡ false
  unfolding joins
  joins_lowered [] = refl
  joins_lowered (item ∷ items) = ground (arith, lower_item_lem item, joins_lowered items)

  lower_value_lem :
      {E : Type 0} (here name : List ℕ) (v : RawValue) (w : RegValue)
      → lower_value {E = E} profiles here name v ≡ built w
      → value_names t name w ≡ false
  lower_value_lem here name (RawValue.int i) w h =
      built_transport (λ x. value_names t name x ≡ false) (RegValue.int i) w h refl
  lower_value_lem here name (RawValue.str s) w h =
      built_transport (λ x. value_names t name x ≡ false) (RegValue.str s) w h refl
  lower_value_lem here name (RawValue.list items) w h =
      built_transport (λ x. value_names t name x ≡ false)
        (RegValue.list (map (lower_item profiles (is_actions name)) items)) w h
        (elim (Bool-cases (is_actions name)) [
          | inl a ↦ rw a (joins_lowered items)
          | inr a ↦ rw a refl
        ])
  lower_value_lem here name RawValue.other w h = cc

  lower_values_lem :
      {E : Type 0} (here : List ℕ) (vs : List (List ℕ × RawValue)) (ws : List (List ℕ × RegValue))
      → lower_values {E = E} profiles here vs ≡ built ws
      → values_name t ws ≡ false
  unfolding lower_values values_name
  lower_values_lem here [] ws h = built_transport (λ x. values_name t x ≡ false) [] ws h refl
  lower_values_lem here ((name, v) ∷ vs) ws h =
      let (w, one, more) = then_build-eq-built (lower_value profiles here name v) _ ws h in
      let (rest, all, last) = then_build-eq-built (lower_values profiles here vs) _ ws more in
      built_transport (λ x. values_name t x ≡ false) ((name, w) ∷ rest) ws last
        (rw (lower_value_lem here name v w one) (lower_values_lem here vs rest all))

  mutual
    unfolding lower_rule rule_names

    lower_rule_lem :
        {E : Type 0} (key : RawKey) (path : List ℕ) (r : RuleInput)
        → lower_rule {E = E} profiles key path ≡ built r
        → rule_names t r ≡ false
    lower_rule_lem (raw_key name values children) path r h =
        let (vs, own, more) =
          then_build-eq-built (lower_values profiles (path_of path name) values) _ r h in
        let (rs, below, last) =
          then_build-eq-built (lower_rules profiles children (path_of path name)) _ r more in
        built_transport (λ x. rule_names t x ≡ false) (rule_input name vs rs) r last
          (rw (lower_values_lem (path_of path name) values vs own)
            (lower_rules_lem children (path_of path name) rs below))

    pub lower_rules_lem :
        {E : Type 0} (keys : RawKeys) (path : List ℕ) (rs : RuleInputs)
        → lower_rules {E = E} profiles keys path ≡ built rs
        → rules_name t rs ≡ false
    lower_rules_lem no_keys path rs h =
        built_transport (λ x. rules_name t x ≡ false) no_rules rs h refl
    lower_rules_lem (one_more key keys) path rs h =
        let (r, one, more) = then_build-eq-built (lower_rule profiles key path) _ rs h in
        let (rest, all, last) = then_build-eq-built (lower_rules profiles keys path) _ rs more in
        built_transport (λ x. rules_name t x ≡ false) (one_rule r rest) rs last
          (rw (lower_rule_lem key path r one) (lower_rules_lem keys path rest all))
