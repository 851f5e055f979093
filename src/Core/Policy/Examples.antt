-- ===== src/Core/Policy/Examples.antt =====
-- A run of the model of netd-core/src/policy.rs at concrete inputs.
use netd.Base.{
  ℕ, ◌≡◌, refl, inl, inr, Bool, ◌&&◌, ◌==◌, not, map, true, false, some, List, [], ◌∷◌, arith,
  if◌then◌else◌, Bool-cases, All, filter,
}
use mathlib.Core.Path.{subst}
use netd.Base.BtreeMap.{get, insert}
use netd.Base.Bytes.{bytes_eq, bytes_eq_sound, less}
use netd.Base.Text.{codes}
use netd.Core.Raw.{RawValue, RawKey, raw_key, no_keys, one_more}
use netd.Core.Profile.{default_address, Profile, Outcome, Judgment}
use netd.Core.Profile.Tree.{
  default_dns, set_values, parse, own_values, has_char, add_profile, walk, resolve,
}
use netd.Core.Policy.{
  RegValue, RuleInputs, rule_input, no_rules, one_rule, is_ascii_whitespace, to_slash, built,
  before_paren, join_target, lower_item, lower_values, lower_rule, Engine, Evaluation, Verdict,
  first_missing, Policy, plant, build, judge_with, judge,
}
use netd.Core.Policy.Written.{
  IsCompact, dropped, kept, IsFolded, backslash, other, IsJoin, written, by_action, here, first,
  RulesJoin,
}
use netd.Core.Policy.Judged.{judge-enabled}

abbrev action : List ℕ
action = codes "Join( Office\\Desk )"

abbrev desk : List ℕ
desk = codes "Office/Desk"

both_true : (a b : Bool) → (a && b) ≡ true → (a ≡ true) × (b ≡ true)
both_true true b h = (refl, h)
both_true false b h = cc h

-- An engine that knows one action, as the first value of the first rule.
abbrev named_in : RuleInputs → List (List ℕ)
named_in (one_rule (rule_input _ ((name, RegValue.list (item ∷ items)) ∷ _) _) _) =
    if bytes_eq name (codes "Actions") && bytes_eq item action then desk ∷ [] else []
named_in _ = []

abbrev first_verdict : Evaluation
first_verdict = record {
  conflict = false;
  candidates = [];
  verdict = Verdict.join 0;
  attributed_to = codes "r";
  backstop = false;
}

abbrev engine : Engine ℕ (List (List ℕ)) ℕ
engine = record {
  build_forest = λ inputs. inr (named_in inputs);
  profiles_of = λ f. f;
  evaluate = λ f snap. some first_verdict;
}

filter-IsCompact : (cs : List ℕ) → IsCompact cs (filter (λ c. not (is_ascii_whitespace c)) cs)
unfolding filter
filter-IsCompact [] = IsCompact.ended
filter-IsCompact (c ∷ cs) = elim (Bool-cases (is_ascii_whitespace c)) [
  | inl s ↦ rw (s, filter) (dropped (ground (arith, s)) (filter-IsCompact cs))
  | inr s ↦ rw (s, filter) (kept (λ h. ground (arith, s, h)) (filter-IsCompact cs))
]

map-IsFolded : (cs : List ℕ) → IsFolded cs (map to_slash cs)
map-IsFolded [] = IsFolded.ended
map-IsFolded (c ∷ cs) = elim (Bool-cases (c == b'\\')) [
  | inl s ↦
      let same : b'\\' ≡ c = ground (arith, s) in
      subst (λ x. IsFolded (x ∷ cs) (to_slash x ∷ map to_slash cs)) same
        (backslash (map-IsFolded cs))
  | inr s ↦ rw s (other (λ h. ground (arith, s, h)) (map-IsFolded cs))
]

action-IsJoin : IsJoin action desk
unfolding filter
action-IsJoin =
    written b'J' b'o' b'i' b'n' (codes "Office\\Desk") (inl refl) (inr refl) (inr refl) (inr refl)
      (filter-IsCompact action) (map-IsFolded (codes "Office\\Desk"))

-- What the engine names, the rules join.
joined_by_rules :
    (rule name item : List ℕ) (items : List (List ℕ)) (vs : List (List ℕ × RegValue))
    (cs rs : RuleInputs)
    → name ≡ codes "Actions"
    → item ≡ action
    → RulesJoin desk (one_rule (rule_input rule ((name, RegValue.list (item ∷ items)) ∷ vs) cs) rs)
unfolding bytes_eq
joined_by_rules rule name item items vs cs rs is_named is_action =
    rw (is_named, is_action)
      (first _ rs (
        here rule _ cs
          (inl (by_action (codes "Actions") (action ∷ items) refl (inl action-IsJoin)))))

named_in-RulesJoin : (inputs : RuleInputs) → All (λ q. RulesJoin q inputs) (named_in inputs)
named_in-RulesJoin no_rules = tt
named_in-RulesJoin (one_rule (rule_input rule [] cs) rs) = tt
named_in-RulesJoin (one_rule (rule_input rule ((name, RegValue.int i) ∷ vs) cs) rs) = tt
named_in-RulesJoin (one_rule (rule_input rule ((name, RegValue.str t) ∷ vs) cs) rs) = tt
named_in-RulesJoin (one_rule (rule_input rule ((name, RegValue.list []) ∷ vs) cs) rs) = tt
named_in-RulesJoin (one_rule (rule_input rule ((name, RegValue.list (item ∷ items)) ∷ vs) cs) rs) =
    elim (Bool-cases (bytes_eq name (codes "Actions") && bytes_eq item action)) [
      | inr n ↦ rw n tt
      | inl n ↦
          let (a, b) = both_true (bytes_eq name (codes "Actions")) (bytes_eq item action) n in
          rw n (
            joined_by_rules rule name item items vs cs rs (bytes_eq_sound name (codes "Actions") a)
                (bytes_eq_sound item action b),
            tt,
          )
    ]

engine_names :
    (inputs : RuleInputs) (f : List (List ℕ))
    → engine.build_forest inputs ≡ inr f
    → All (λ q. RulesJoin q inputs) (engine.profiles_of f)
engine_names inputs f h =
    let same : named_in inputs ≡ f = ground (arith, h) in
    subst (All (λ q. RulesJoin q inputs)) same (named_in-RulesJoin inputs)

abbrev rules : RawKey
rules = raw_key (codes "Interface") [] (
    one_more (raw_key (codes "r") ((codes "Actions", RawValue.list (action ∷ [])) ∷ []) no_keys)
      no_keys)

abbrev root : RawKey
root = raw_key (codes "Profiles") [] (
    one_more (raw_key (codes "Office") [] (one_more (raw_key (codes "Desk") [] no_keys) no_keys))
      no_keys)

abbrev profile_at : List ℕ → Profile
profile_at path = record {
  path = path;
  enabled = true;
  address = default_address;
  dns = default_dns;
}

abbrev at_desk : Profile
at_desk = profile_at desk

abbrev generation : Policy (List (List ℕ))
generation = record {
  forest = some (desk ∷ []);
  profiles = (codes "office", profile_at (codes "Office")) ∷ (codes "office/desk", at_desk) ∷ [];
}

abbrev judgment : Judgment
judgment = record {
  outcome = Outcome.join at_desk;
  rule = codes "r";
  backstop = false;
  conflict = false;
}

builds : build engine (some rules) (some root) ≡ built generation
unfolding build resolve walk own_values add_profile parse set_values has_char insert lower_rule
    lower_values lower_item join_target before_paren plant first_missing get bytes_eq filter less
builds = refl

judges : judge engine generation 0 ≡ some judgment
unfolding judge judge_with get bytes_eq
judges = refl

judge-enabled_example : at_desk.enabled ≡ true
judge-enabled_example =
    judge-enabled engine engine_names (some rules) (some root) generation 0 judgment at_desk builds
      judges refl
