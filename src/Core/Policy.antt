-- ===== src/Core/Policy.antt =====
-- netd-core/src/policy.rs: a generation of the interface layer, and the judgment of an interface. The
-- rules engine pnp-core is a parameter: its forests, their building and their evaluation.
pub mod Abstains
pub mod Written
pub mod Judged
mod Examples
use netd.Base.{
  ◌>>=◌, ℕ, zero, suc, ◌+◌, ◌-◌, ◌*◌, ◌/◌, ◌%◌, ◌^◌, ◌≤◌, ◌<◌, min, max, bit_and, bit_or, bit_xor,
  ◌≡◌, refl, sym, ap, ◌∙◌, ◌≢◌, ◌⊎◌, ◌↔◌, inl, inr, Bool, true, false, ◌&&◌, ◌||◌, not, Option,
  none, some, List, [], ◌∷◌, ◌++◌, map, arith, ltb, leb, ◌==◌, if◌then◌else◌, ltb→lt, lt→ltb,
  leb→le, le→leb, ==_iff, Bool-cases, Option-cases, get_or_else, is_some, or_else, keep_if,
  map_option, Loop, done, stuck, run_or, run_or-done, length, get_elem?, get_or, take, drop,
  replicate, All, All-append, All-take, All-drop, All-replicate, take-append, drop-append,
  length-append, length-take, length-drop, length-replicate, length-map, filter, All-filter,
  All-each, All-map, All-imp,
}
use netd.Base.BtreeMap.{get}
use netd.Base.Bytes.{bytes_eq, less}
use netd.Base.Text.{codes}
use netd.Core.Hostname.{eq_ignore_ascii_case}
use netd.Core.Raw.{ℤ, pos, negsuc, RawValue, RawKey, RawKeys, raw_key, no_keys, one_more}
use netd.Core.Profile.{Profile, Outcome, Judgment}
use netd.Core.Profile.Values.{Fault, Result, ok, err, lower}
use netd.Core.Profile.Tree.{Profiles, text_key, resolve, path_of}

-- What the engine is given: a rule with its values and its subrules. The lists that are lowered hold
-- texts only.
pub data RegValue : Type 0 where
  int : ℤ → RegValue
  str : List ℕ → RegValue
  list : List (List ℕ) → RegValue

mutual
  pub data RuleInput : Type 0 where
    rule_input : List ℕ → List (List ℕ × RegValue) → RuleInputs → RuleInput

  pub data RuleInputs : Type 0 where
    no_rules : RuleInputs
    one_rule : RuleInput → RuleInputs → RuleInputs

pub data Refusal (E : Type 0) : Type 0 where
  bad_profile : List ℕ → Fault → Refusal E
  unsupported_value : List ℕ → List ℕ → Refusal E
  bad_rules : E → Refusal E
  no_profile : List ℕ → Refusal E

pub data Built (E A : Type 0) : Type 0 where
  built : A → Built E A
  refused : Refusal E → Built E A

abbrev pub then_build : {E A B : Type 0} → Built E A → (A → Built E B) → Built E B
then_build (built a) f = f a
then_build (refused r) f = refused r

abbrev pub is_ascii_whitespace : ℕ → Bool
is_ascii_whitespace c = c == 0x20 || (c == 0x9 || (c == 0xa || (c == 0xc || c == 0xd)))

abbrev pub to_slash : ℕ → ℕ
to_slash c = if c == b'\\' then b'/' else c

-- All but the last, where the last is a closing parenthesis.
unfoldable pub before_paren : List ℕ → Option (List ℕ)
before_paren [] = none
before_paren (c ∷ []) = if c == b')' then some [] else none
before_paren (c ∷ d ∷ cs) = map_option (λ r. c ∷ r) (before_paren (d ∷ cs))

unfoldable pub join_target : List ℕ → Option (List ℕ)
join_target expr =
    let compact = filter (λ c. not (is_ascii_whitespace c)) expr in
    if ltb (length compact) 6 || not (eq_ignore_ascii_case (take 5 compact) (codes "join("))
    then none
    else map_option (λ p. lower (map to_slash p)) (before_paren (drop 5 compact))

abbrev pub is_actions : List ℕ → Bool
is_actions name = eq_ignore_ascii_case name (codes "Actions")

abbrev pub is_off : Option Profile → Bool
is_off none = false
is_off (some p) = not p.enabled

abbrev pub target_off : Profiles → Option (List ℕ) → Bool
target_off profiles none = false
target_off profiles (some t) = is_off (get text_key t profiles)

-- A JOIN of a disabled profile abstains.
unfoldable pub lower_item : Profiles → Bool → List ℕ → List ℕ
lower_item profiles actions item =
    if actions && target_off profiles (join_target item) then codes "NULL" else item

module _ {E : Type 0} (profiles : Profiles) where
  abbrev pub lower_value : List ℕ → List ℕ → RawValue → Built E RegValue
  lower_value here name (RawValue.int i) = built (RegValue.int i)
  lower_value here name (RawValue.str s) = built (RegValue.str s)
  lower_value here name (RawValue.list items) =
      built (RegValue.list (map (lower_item profiles (is_actions name)) items))
  lower_value here name RawValue.other = refused (unsupported_value here name)

  unfoldable pub lower_values :
      List ℕ → List (List ℕ × RawValue) → Built E (List (List ℕ × RegValue))
  lower_values here [] = built []
  lower_values here ((name, v) ∷ vs) =
      then_build (lower_value here name v)
        (λ w. then_build (lower_values here vs) (λ ws. built ((name, w) ∷ ws)))

  unfoldable mutual
    pub lower_rule : RawKey → List ℕ → Built E RuleInput
    lower_rule (raw_key name values children) path =
        then_build (lower_values (path_of path name) values) (λ vs.
          then_build (lower_rules children (path_of path name))
            (λ rs. built (rule_input name vs rs)))

    pub lower_rules : RawKeys → List ℕ → Built E RuleInputs
    lower_rules no_keys path = built no_rules
    lower_rules (one_more key keys) path =
        then_build (lower_rule key path)
          (λ r. then_build (lower_rules keys path) (λ rs. built (one_rule r rs)))

pub data Verdict : Type 0 where
  join : ℕ → Verdict
  down : Verdict
  other : Verdict

pub record Candidate : Type 0 where
  pub rule : List ℕ
  pub priority : ℤ

pub record Evaluation : Type 0 where
  pub conflict : Bool
  pub candidates : List Candidate
  pub verdict : Verdict
  pub attributed_to : List ℕ
  pub backstop : Bool

pub record Engine (E Forest Snapshot : Type 0) : Type 0 where
  pub build_forest : RuleInputs → E ⊎ Forest
  pub profiles_of : Forest → List (List ℕ)
  pub evaluate : Forest → Snapshot → Option Evaluation

abbrev pub less_than : ℤ → ℤ → Bool
less_than (pos a) (pos b) = ltb a b
less_than (pos a) (negsuc b) = false
less_than (negsuc a) (pos b) = true
less_than (negsuc a) (negsuc b) = ltb b a

-- `max`, of those before and these.
unfoldable pub top : ℤ → List Candidate → ℤ
top p [] = p
top p (c ∷ cs) = top (if less_than c.priority p then p else c.priority) cs

unfoldable pub top_priority : List Candidate → ℤ
top_priority [] = pos 0
top_priority (c ∷ cs) = top c.priority cs

abbrev pub same_priority : ℤ → ℤ → Bool
same_priority p q = not (less_than p q) && not (less_than q p)

-- `sort_unstable` and `dedup`: each name once, in order.
unfoldable pub insert_name : List ℕ → List (List ℕ) → List (List ℕ)
insert_name n [] = n ∷ []
insert_name n (m ∷ ms) =
    let rest = insert_name n ms in
    if bytes_eq n m then m ∷ ms else if less n m then n ∷ m ∷ ms else m ∷ rest

unfoldable pub sort_names : List (List ℕ) → List (List ℕ)
sort_names [] = []
sort_names (n ∷ ns) = insert_name n (sort_names ns)

unfoldable pub join_vs : List (List ℕ) → List ℕ
join_vs [] = []
join_vs (n ∷ []) = n
join_vs (n ∷ m ∷ ms) = n ++ (codes " vs " ++ join_vs (m ∷ ms))

abbrev pub rule_of : Candidate → List ℕ
rule_of c = c.rule

-- The rules that tie on the highest priority.
unfoldable pub tied : List Candidate → List ℕ
tied cs =
    join_vs (sort_names (map rule_of (filter (λ c. same_priority c.priority (top_priority cs)) cs)))

abbrev pub backstop_judgment : Judgment
backstop_judgment = record {
  outcome = Outcome.ignore;
  rule = codes "backstop";
  backstop = true;
  conflict = false;
}

unfoldable pub first_missing : Profiles → List (List ℕ) → Option (List ℕ)
first_missing profiles [] = none
first_missing profiles (p ∷ ps) =
    if is_some (get text_key (lower p) profiles) then first_missing profiles ps else some p

pub record Policy (Forest : Type 0) : Type 0 where
  pub forest : Option Forest
  pub profiles : Profiles

module _ {E Forest Snapshot : Type 0} (engine : Engine E Forest Snapshot) where
  abbrev pub resolved : Option RawKey → Built E Profiles
  resolved none = built []
  resolved (some root) = elim (resolve root) [
    | ok out ↦ built out
    | err path fault ↦ refused (bad_profile path fault)
  ]

  abbrev pub children_of : RawKey → RawKeys
  children_of (raw_key name values children) = children

  unfoldable pub plant : Profiles → RuleInputs → Built E (Policy Forest)
  plant profiles inputs = elim (engine.build_forest inputs) [
    | inl e ↦ refused (bad_rules e)
    | inr f ↦ elim (first_missing profiles (engine.profiles_of f)) [
      | some p ↦ refused (no_profile p)
      | none ↦ built (record { forest = some f; profiles = profiles })
    ]
  ]

  unfoldable pub build : Option RawKey → Option RawKey → Built E (Policy Forest)
  build rules root = then_build (resolved root) (λ profiles. elim rules [
    | none ↦ built (record { forest = none; profiles = profiles })
    | some key ↦ then_build (lower_rules profiles (children_of key) []) (plant profiles)
  ])

  abbrev pub outcome_of : Option Profile → Outcome
  outcome_of none = Outcome.ignore
  outcome_of (some p) = Outcome.join p

  -- An index that is out of range is a panic in the code, and `none` here.
  abbrev pub verdict_outcome : Policy Forest → Forest → Verdict → Option Outcome
  verdict_outcome policy f (Verdict.join i) =
      map_option (λ p. outcome_of (get text_key (lower p) policy.profiles))
        (get_elem? (engine.profiles_of f) i)
  verdict_outcome policy f Verdict.down = some Outcome.down
  verdict_outcome policy f Verdict.other = some Outcome.ignore

  unfoldable pub judge_with : Policy Forest → Forest → Evaluation → Option Judgment
  judge_with policy f e =
      if e.conflict
      then some (record {
        outcome = Outcome.ignore;
        rule = tied e.candidates;
        backstop = false;
        conflict = true;
      })
      else map_option
          (λ o. record {
            outcome = o;
            rule = e.attributed_to;
            backstop = e.backstop;
            conflict = false;
          })
          (verdict_outcome policy f e.verdict)

  unfoldable pub judge : Policy Forest → Snapshot → Option Judgment
  judge policy snap = elim policy.forest [
    | none ↦ some backstop_judgment
    | some f ↦ elim (engine.evaluate f snap) [
      | none ↦ some backstop_judgment
      | some e ↦ judge_with policy f e
    ]
  ]
