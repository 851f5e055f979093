-- ===== src/Base/Members.antt =====
-- What stands in a list, as a sum over its elements.
use mathlib.Core.Path.{subst, ap, sym, ◌∙◌, ◌≡◌, refl}
use mathlib.Core.Logic.{◌⊎◌, inl, inr, ◌↔◌}
use mathlib.Core.Bool.{Bool, true, false}
use mathlib.Core.List.{List, [], ◌∷◌, ◌++◌, map}
use netd.Base.Tests.{Bool-cases, if◌then◌else◌}
use netd.Base.Lists.{All, filter}

-- Some element has the property.
abbrev pub Some : {A : Type 0} → (A → Type 0) → List A → Type 0
Some P [] = ⊥
Some P (x ∷ xs) = P x ⊎ Some P xs

-- The element stands in the list.
abbrev pub In : {A : Type 0} → A → List A → Type 0
In x xs = Some (λ y. x ≡ y) xs

module _ {A : Type 0} where
  pub In-append : (x : A) (xs ys : List A) → In x (xs ++ ys) ↔ (In x xs ⊎ In x ys)
  In-append x [] ys = (λ h. inr h, λ s. elim s [ inl h ↦ absurd h | inr h ↦ h ])
  In-append x (y ∷ xs) ys =
      let (there, back) = In-append x xs ys in
      (
        λ h. elim h [
          | inl e ↦ inl (inl e)
          | inr t ↦ elim (there t) [ inl a ↦ inl (inr a) | inr b ↦ inr b ]
        ],
        λ s. elim s [
          | inl h ↦ elim h [ inl e ↦ inl e | inr t ↦ inr (back (inl t)) ]
          | inr h ↦ inr (back (inr h))
        ],
      )

  -- A list that stands under a test.
  pub In-if :
      (x : A) (b : Bool) (xs : List A) → In x (if b then xs else []) ↔ ((b ≡ true) × In x xs)
  In-if x true xs = (λ h. (refl, h), λ h. h.1)
  In-if x false xs = (λ h. absurd h, λ h. cc h.0)

  -- What all elements have, and what each element has.
  pub All-In : (P : A → Type 0) (xs : List A) → All P xs → (x : A) → In x xs → P x
  All-In P [] h x m = absurd m
  All-In P (y ∷ xs) h x m = elim m [ inl e ↦ subst P (sym e) h.0 | inr t ↦ All-In P xs h.1 x t ]

  pub In-All : (P : A → Type 0) (xs : List A) → ((x : A) → In x xs → P x) → All P xs
  In-All P [] f = tt
  In-All P (y ∷ xs) f = (f y (inl refl), In-All P xs (λ x m. f x (inr m)))

  -- Some element has the property where one that stands in the list does.
  pub In-Some : (P : A → Type 0) (xs : List A) (x : A) → In x xs → P x → Some P xs
  In-Some P [] x m p = absurd m
  In-Some P (y ∷ xs) x m p = elim m [ inl e ↦ inl (subst P e p) | inr t ↦ inr (In-Some P xs x t p) ]

  pub Some-In : (P : A → Type 0) (xs : List A) → Some P xs → (x : A) × In x xs × P x
  Some-In P [] h = absurd h
  Some-In P (y ∷ xs) h = elim h [
    | inl p ↦ (y, inl refl, p)
    | inr t ↦ let (x, m, p) = Some-In P xs t in (x, inr m, p)
  ]

  pub In-filter :
      (p : A → Bool) (xs : List A) (x : A) → In x (filter p xs) ↔ (In x xs × (p x ≡ true))
  unfolding filter
  In-filter p [] x = (λ h. absurd h, λ h. absurd h.0)
  In-filter p (y ∷ xs) x =
      let (there, back) = In-filter p xs x in
      elim (Bool-cases (p y)) [
        | inl t ↦
            rw (t, filter)
              (
                λ h. elim h [
                  | inl e ↦ (inl e, ap p e ∙ t)
                  | inr m ↦ (inr (there m).0, (there m).1)
                ],
                λ h. elim h.0 [ inl e ↦ inl e | inr m ↦ inr (back (m, h.1)) ],
              )
        | inr f ↦
            rw (f, filter)
              (
                λ h. (inr (there h).0, (there h).1),
                λ h. elim h.0 [
                  | inl e ↦ let wrong = sym h.1 ∙ (ap p e ∙ f) in cc wrong
                  | inr m ↦ back (m, h.1)
                ],
              )
      ]

pub In-map :
    {A B : Type 0} (f : A → B) (xs : List A) (y : B)
    → In y (map f xs) ↔ ((x : A) × In x xs × (y ≡ f x))
In-map f [] y = (λ h. absurd h, λ (x, m, e). absurd m)
In-map f (z ∷ xs) y =
    let (there, back) = In-map f xs y in
    (
      λ h. elim h [ inl e ↦ (z, inl refl, e) | inr t ↦ let (x, m, e) = there t in (x, inr m, e) ],
      λ (x, m, e). elim m [ inl s ↦ inl (e ∙ ap f s) | inr t ↦ inr (back (x, t, e)) ],
    )
