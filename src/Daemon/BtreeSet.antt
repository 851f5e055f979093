-- ===== src/Daemon/BtreeSet.antt =====
-- `BTreeSet` of the standard library as netd/src/reconcile.rs uses it: the elements in the order of their
-- keys, each key once.
use netd.Base.{
  ℕ, ◌≡◌, refl, ap, ◌∙◌, inl, inr, Bool, false, ◌||◌, List, [], ◌∷◌, arith, if◌then◌else◌,
  Bool-cases, All,
}
use netd.Base.Bytes.{less, bytes_eq, bytes_eq_sound}

module _ {A : Type 0} (key : A → List ℕ) where
  unfoldable pub contains : List A → A → Bool
  contains [] x = false
  contains (y ∷ ys) x = bytes_eq (key x) (key y) || contains ys x

  unfoldable pub insert : A → List A → List A
  insert x [] = x ∷ []
  insert x (y ∷ ys) =
      let rest = insert x ys in
      if bytes_eq (key x) (key y)
      then y ∷ ys
      else if less (key x) (key y)
      then x ∷ y ∷ ys
      else y ∷ rest

  -- `collect`
  unfoldable pub from_list : List A → List A
  from_list [] = []
  from_list (x ∷ xs) = insert x (from_list xs)

  pub insert-All : (P : A → Type 0) (x : A) (ys : List A) → P x → All P ys → All P (insert x ys)
  unfolding insert
  insert-All P x [] p h = (p, tt)
  insert-All P x (y ∷ ys) p h = elim (Bool-cases (bytes_eq (key x) (key y))) [
    | inl e ↦ rw (e, insert) h
    | inr e ↦
        rw (e, insert)
          (elim (Bool-cases (less (key x) (key y))) [
            | inl l ↦ rw l (p, h)
            | inr l ↦ rw l (h.0, insert-All P x ys p h.1)
          ])
  ]

  pub from_list-All : (P : A → Type 0) (xs : List A) → All P xs → All P (from_list xs)
  unfolding from_list
  from_list-All P [] h = tt
  from_list-All P (x ∷ xs) h = insert-All P x (from_list xs) h.0 (from_list-All P xs h.1)

  -- A set has what was put into it.
  pub contains-insert :
      (x z : A) (ys : List A)
      → contains (insert x ys) z ≡ (bytes_eq (key z) (key x) || contains ys z)
  unfolding contains insert
  contains-insert x z [] = refl
  contains-insert x z (y ∷ ys) = elim (Bool-cases (bytes_eq (key x) (key y))) [
    | inl e ↦
        rw (e, insert) (ground (arith, ap (bytes_eq (key z)) (bytes_eq_sound (key x) (key y) e)))
    | inr e ↦
        rw (e, insert)
          (elim (Bool-cases (less (key x) (key y))) [
            | inl l ↦ rw l refl
            | inr l ↦ rw l (ground (arith, contains-insert x z ys))
          ])
  ]

  pub contains-from_list : (z : A) (xs : List A) → contains (from_list xs) z ≡ contains xs z
  unfolding contains from_list
  contains-from_list z [] = refl
  contains-from_list z (x ∷ xs) =
      contains-insert x z (from_list xs)
      ∙ ap (λ b. bytes_eq (key z) (key x) || b) (contains-from_list z xs)
