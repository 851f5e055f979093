-- ===== src/Core/Policy/Judged.antt =====
-- netd-core/src/policy.rs: which profile an interface is judged to stand in.
use netd.Base.{
  ℕ, zero, suc, ◌≡◌, refl, ap, ◌∙◌, ◌⊎◌, inl, inr, true, false, Option, none, some, List, [], ◌∷◌,
  arith, Bool-cases, Option-cases, get_elem?, All, All-imp,
}
use mathlib.Core.Path.{subst}
use netd.Base.BtreeMap.{get}
use netd.Core.Raw.{RawKey, RawKeys}
use netd.Core.Profile.{Profile, Outcome, Judgment, profile_of}
use netd.Core.Profile.Values.{lower}
use netd.Core.Profile.Tree.{Profiles, text_key}
use netd.Core.Policy.{
  RuleInputs, built, target_off, lower_rules, Engine, Evaluation, Verdict, backstop_judgment,
  first_missing, Policy, resolved, children_of, plant, build, verdict_outcome, judge_with, judge,
  tied,
}
use netd.Core.Policy.Abstains.{then_build-eq-built, built_transport, lower_rules_lem}
use netd.Core.Policy.Written.{RulesJoin, rules_name_lem}

sum_cases : {A B : Type 0} (x : A ⊎ B) → ((a : A) × (x ≡ inl a)) ⊎ ((b : B) × (x ≡ inr b))
sum_cases (inl a) = inl (a, refl)
sum_cases (inr b) = inr (b, refl)

All-get_elem :
    {A : Type 0} (P : A → Type 0) (xs : List A) (i : ℕ) (x : A)
    → All P xs
    → get_elem? xs i ≡ some x
    → P x
All-get_elem P [] i x h e = cc
All-get_elem P (y ∷ ys) zero x h e = subst P (ground arith) h.0
All-get_elem P (y ∷ ys) (suc i) x h e = All-get_elem P ys i x h.1 e

-- Nothing that the forest can join is a profile that is disabled.
abbrev IsClean :
    {E Forest Snapshot : Type 0} → Engine E Forest Snapshot → Profiles → Forest → Type 0
IsClean engine profiles f =
    All (λ q. target_off profiles (some (lower q)) ≡ false) (engine.profiles_of f)

module _ {E Forest Snapshot : Type 0} (engine : Engine E Forest Snapshot)
    (names : (inputs : RuleInputs) (f : Forest)
      → engine.build_forest inputs ≡ inr f
      → All (λ q. RulesJoin q inputs) (engine.profiles_of f)) where
  named-IsClean :
      (profiles : Profiles) (keys : RawKeys) (inputs : RuleInputs) (f : Forest)
      → lower_rules {E = E} profiles keys [] ≡ built inputs
      → engine.build_forest inputs ≡ inr f
      → IsClean engine profiles f
  named-IsClean profiles keys inputs f lowered grown =
      All-imp (λ q. RulesJoin q inputs) (λ q. target_off profiles (some (lower q)) ≡ false)
        (engine.profiles_of f)
        (λ q named. elim (Bool-cases (target_off profiles (some (lower q)))) [
          | inr off ↦ off
          | inl off ↦
              let found = rules_name_lem q inputs named in
              let not_named = lower_rules_lem profiles (lower q) off keys [] inputs lowered in
              ground (arith, found, not_named)
        ])
        (names inputs f grown)

  plant-IsClean :
      (profiles : Profiles) (keys : RawKeys) (inputs : RuleInputs) (policy : Policy Forest)
      (f : Forest)
      → lower_rules {E = E} profiles keys [] ≡ built inputs
      → plant engine profiles inputs ≡ built policy
      → policy.forest ≡ some f
      → IsClean engine policy.profiles f
  unfolding plant
  plant-IsClean profiles keys inputs policy f lowered h grows =
      elim (sum_cases (engine.build_forest inputs)) [
        | inl (e, s) ↦ ground (arith, h, s)
        | inr (g, s) ↦ elim (Option-cases (first_missing profiles (engine.profiles_of g))) [
          | inr (q, m) ↦ ground (arith, h, s, m)
          | inl m ↦
              let planted : Policy Forest = record { forest = some g; profiles = profiles } in
              let same : planted ≡ policy = ground (arith, h, s, m) in
              let found : g ≡ f =
                ground (arith, ap (λ (x : Policy Forest). x.forest) same, grows) in
              subst (IsClean engine policy.profiles) found (
                subst (λ x. IsClean engine x g) (ap (λ (x : Policy Forest). x.profiles) same)
                  (named-IsClean profiles keys inputs g lowered s))
        ]
      ]

  build-IsClean :
      (rules root : Option RawKey) (policy : Policy Forest) (f : Forest)
      → build engine rules root ≡ built policy
      → policy.forest ≡ some f
      → IsClean engine policy.profiles f
  unfolding build
  build-IsClean none root policy f h grows =
      let (profiles, _, last) = then_build-eq-built (resolved engine root) _ policy h in
      let bare : Policy Forest = record { forest = none; profiles = profiles } in
      let empty = built_transport (λ (x : Policy Forest). x.forest ≡ none) bare policy last refl in
      ground (arith, empty, grows)
  build-IsClean (some key) root policy f h grows =
      let (profiles, _, more) = then_build-eq-built (resolved engine root) _ policy h in
      let (inputs, lowered, last) =
        then_build-eq-built (lower_rules profiles (children_of engine key) []) _ policy more in
      plant-IsClean profiles (children_of engine key) inputs policy f lowered last grows

  join-enabled :
      (policy : Policy Forest) (f : Forest) (i : ℕ) (o : Outcome) (p : Profile)
      → IsClean engine policy.profiles f
      → verdict_outcome engine policy f (Verdict.join i) ≡ some o
      → o ≡ Outcome.join p
      → p.enabled ≡ true
  join-enabled policy f i o p clean h joined =
      elim (Option-cases (get_elem? (engine.profiles_of f) i)) [
        | inl n ↦ ground (arith, h, n)
        | inr (q, s) ↦
            let at =
              All-get_elem (λ q. target_off policy.profiles (some (lower q)) ≡ false)
                (engine.profiles_of f) i q clean s in
            elim (Option-cases (get text_key (lower q) policy.profiles)) [
              | inl n ↦
                  let same : Outcome.ignore ≡ o = ground (arith, h, s, n) in
                  let wrong = ap profile_of (same ∙ joined) in ground (arith, wrong)
              | inr (p', g) ↦
                  let same : Outcome.join p' ≡ o = ground (arith, h, s, g) in
                  let found : p' ≡ p = ground (arith, ap profile_of (same ∙ joined)) in
                  subst (λ (x : Profile). x.enabled ≡ true) found (ground (arith, at, g))
            ]
      ]

  verdict-enabled :
      (policy : Policy Forest) (f : Forest) (v : Verdict) (o : Outcome) (p : Profile)
      → IsClean engine policy.profiles f
      → verdict_outcome engine policy f v ≡ some o
      → o ≡ Outcome.join p
      → p.enabled ≡ true
  verdict-enabled policy f (Verdict.join i) o p clean h joined =
      join-enabled policy f i o p clean h joined
  verdict-enabled policy f Verdict.down o p clean h joined =
      let same : Outcome.down ≡ o = ground (arith, h) in
      let wrong = ap profile_of (same ∙ joined) in ground (arith, wrong)
  verdict-enabled policy f Verdict.other o p clean h joined =
      let same : Outcome.ignore ≡ o = ground (arith, h) in
      let wrong = ap profile_of (same ∙ joined) in ground (arith, wrong)

  joined-enabled :
      (policy : Policy Forest) (f : Forest) (e : Evaluation) (j : Judgment) (p : Profile)
      → IsClean engine policy.profiles f
      → judge_with engine policy f e ≡ some j
      → j.outcome ≡ Outcome.join p
      → p.enabled ≡ true
  unfolding judge_with
  joined-enabled policy f e j p clean h joined = elim (Bool-cases e.conflict) [
    | inl c ↦
        let tie : Judgment = record {
          outcome = Outcome.ignore;
          rule = tied e.candidates;
          backstop = false;
          conflict = true;
        } in
        let same : tie ≡ j = ground (arith, h, c) in
        let wrong = ap profile_of (ap (λ (x : Judgment). x.outcome) same ∙ joined) in
        ground (arith, wrong)
    | inr c ↦ elim (Option-cases (verdict_outcome engine policy f e.verdict)) [
      | inl n ↦ ground (arith, h, c, n)
      | inr (o, v) ↦
          let judged : Judgment = record {
            outcome = o;
            rule = e.attributed_to;
            backstop = e.backstop;
            conflict = false;
          } in
          let same : judged ≡ j = ground (arith, h, c, v) in
          verdict-enabled policy f e.verdict o p clean v
            (ap (λ (x : Judgment). x.outcome) same ∙ joined)
    ]
  ]

  -- Where each profile that a forest names is written in a JOIN among the actions of the rules it was built
  -- from: in a generation that is accepted, no interface is judged to stand in a disabled profile.
  pub judge-enabled :
      (rules root : Option RawKey) (policy : Policy Forest) (snap : Snapshot) (j : Judgment)
      (p : Profile)
      → build engine rules root ≡ built policy
      → judge engine policy snap ≡ some j
      → j.outcome ≡ Outcome.join p
      → p.enabled ≡ true
  unfolding judge
  judge-enabled rules root policy snap j p accepted h joined = elim (Option-cases policy.forest) [
    | inl n ↦
        let same : backstop_judgment ≡ j = ground (arith, h, n) in
        let ignored = ap (λ (x : Judgment). x.outcome) same in ground (arith, ignored, joined)
    | inr (f, s) ↦ elim (Option-cases (engine.evaluate f snap)) [
      | inl n ↦
          let same : backstop_judgment ≡ j = ground (arith, h, s, n) in
          let ignored = ap (λ (x : Judgment). x.outcome) same in ground (arith, ignored, joined)
      | inr (e, t) ↦
          let found : judge_with engine policy f e ≡ some j = ground (arith, h, s, t) in
          joined-enabled policy f e j p (build-IsClean rules root policy f accepted s) found joined
    ]
  ]
