-- ===== src/Daemon/Interface/Told.antt =====
-- netd/src/main.rs: what `dns` and `status` say.
use netd.Base.{
  ◌≤◌, ◌≡◌, refl, sym, ap, ◌∙◌, ◌⊎◌, ◌↔◌, inl, inr, Bool, true, false, ◌&&◌, not, List, [], ◌∷◌,
  arith, ltb, Bool-cases, All, filter,
}
use netd.Base.Members.{In}
use netd.Daemon.Model.{Observed}
use netd.Daemon.Interface.{Interface, managed}
use netd.Daemon.Interface.Reported.{Level, rank, level, max_level, machine_level, seen, first_ones}

module _ {A : Type 0} (eq : A → A → Bool) where
  -- No element stands twice.
  abbrev pub Distinct : List A → Type 0
  Distinct [] = Unit
  Distinct (x ∷ xs) = (seen eq x xs ≡ false) × Distinct xs

and_true : (b : Bool) → (b && true) ≡ b
and_true true = refl
and_true false = refl

module _ {A : Type 0} (eq : A → A → Bool) (sound : (a b : A) → eq a b ≡ true → a ≡ b)
    (same : (a : A) → eq a a ≡ true) where
  seen-first_ones :
      (y : A) (before xs : List A)
      → seen eq y (first_ones eq before xs) ≡ (seen eq y xs && not (seen eq y before))
  unfolding seen first_ones
  seen-first_ones y before [] = refl
  seen-first_ones y before (x ∷ xs) = elim (Bool-cases (seen eq x before)) [
    | inl s ↦ elim (Bool-cases (eq y x)) [
      | inl e ↦
          let found : seen eq y before ≡ true = ap (λ a. seen eq a before) (sound y x e) ∙ s in
          rw s (ground (arith, e, found, seen-first_ones y before xs))
      | inr e ↦ rw s (ground (arith, e, seen-first_ones y before xs))
    ]
    | inr s ↦ elim (Bool-cases (eq y x)) [
      | inl e ↦
          let new : seen eq y before ≡ false = ap (λ a. seen eq a before) (sound y x e) ∙ s in
          rw s (ground (arith, e, new))
      | inr e ↦ rw s (ground (arith, e, seen-first_ones y (x ∷ before) xs))
    ]
  ]

  pub first_ones-Distinct : (before xs : List A) → Distinct eq (first_ones eq before xs)
  unfolding seen first_ones
  first_ones-Distinct before [] = tt
  first_ones-Distinct before (x ∷ xs) = elim (Bool-cases (seen eq x before)) [
    | inl s ↦ rw s (first_ones-Distinct before xs)
    | inr s ↦ rw s (
      ground (arith, seen-first_ones x (x ∷ before) xs, same x),
      first_ones-Distinct (x ∷ before) xs,
    )
  ]

  pub seen-In : (y : A) (xs : List A) → (seen eq y xs ≡ true) ↔ In y xs
  unfolding seen
  seen-In y [] = (λ h. cc h, λ h. absurd h)
  seen-In y (x ∷ xs) =
      let (there, back) = seen-In y xs in
      (
        λ h. elim (Bool-cases (eq y x)) [
          | inl e ↦ inl (sound y x e)
          | inr e ↦ inr (there (ground (arith, e, h)))
        ],
        λ t. elim t [
          | inl e ↦ let found : eq y x ≡ true = ap (eq y) (sym e) ∙ same y in ground (arith, found)
          | inr m ↦ let found = back m in ground (arith, found)
        ],
      )

  -- The same elements stand in the list as before.
  pub first_ones-In : (y : A) (xs : List A) → In y (first_ones eq [] xs) ↔ In y xs
  unfolding seen
  first_ones-In y xs =
      let left = seen-In y (first_ones eq [] xs) in
      let right = seen-In y xs in
      let both : seen eq y (first_ones eq [] xs) ≡ seen eq y xs =
        seen-first_ones y [] xs ∙ and_true (seen eq y xs) in
      (λ h. right.0 (sym both ∙ left.1 h), λ h. left.0 (both ∙ right.1 h))

-- Interfaces that count for the machine's level.
abbrev pub counts : Interface → Bool
counts i = not i.link.loopback && managed i

-- Some interface has the level.
abbrev pub Attained : Observed → Level → List Interface → Type 0
Attained o l [] = ⊥
Attained o l (i ∷ is') = (level o i ≡ l) ⊎ Attained o l is'

-- The greatest of the levels, `l` among them.
abbrev pub IsGreatest : Observed → Level → List Interface → Level → Type 0
IsGreatest o l is' m =
    (rank l ≤ rank m) × All (λ i. rank (level o i) ≤ rank m) is' × ((m ≡ l) ⊎ Attained o m is')

max_level_lem :
    (l m : Level)
    → (rank l ≤ rank (max_level l m))
      × (rank m ≤ rank (max_level l m))
      × ((max_level l m ≡ l) ⊎ (max_level l m ≡ m))
max_level_lem l m = elim (Bool-cases (ltb (rank m) (rank l))) [
  | inl h ↦ rw h (omega arith, ground (arith, h), inl refl)
  | inr h ↦ rw h (ground (arith, h), omega arith, inr refl)
]

machine_level-from :
    (o : Observed) (is' : List Interface) (l : Level)
    → IsGreatest o l (filter counts is') (machine_level o is' l)
unfolding machine_level filter
machine_level-from o [] l = (omega arith, tt, inl refl)
machine_level-from o (i ∷ is') l = elim (Bool-cases (counts i)) [
  | inl c ↦
      let (l_max, i_max, which) = max_level_lem l (level o i) in
      let (low, all, at) = machine_level-from o is' (max_level l (level o i)) in
      rw (c, machine_level, filter)
        (
          omega arith,
          (omega arith, all),
          elim at [
            | inr a ↦ inr (inr a)
            | inl e ↦ elim which [ inl w ↦ inl (e ∙ w) | inr w ↦ inr (inl (sym w ∙ sym e)) ]
          ],
        )
  | inr c ↦ rw (c, machine_level, filter) (machine_level-from o is' l)
]

-- The machine's level is that of an interface that counts, or `absent`, and no interface that counts has
-- a greater one; those count that are joined and not loopback.
pub machine_level-IsGreatest :
    (o : Observed) (is' : List Interface)
    → IsGreatest o Level.absent (filter counts is') (machine_level o is' Level.absent)
machine_level-IsGreatest o is' = machine_level-from o is' Level.absent
