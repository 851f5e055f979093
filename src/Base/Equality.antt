-- ===== src/Base/Equality.antt =====
-- `==` on lists and options, from `==` on what they hold.
use netd.Base.{◌≡◌, refl, Bool, true, false, ◌&&◌, Option, none, some, List, [], ◌∷◌, arith}

module _ {A : Type 0} (eq : A → A → Bool) where
  unfoldable pub list_eq : List A → List A → Bool
  list_eq [] [] = true
  list_eq [] (y ∷ ys) = false
  list_eq (x ∷ xs) [] = false
  list_eq (x ∷ xs) (y ∷ ys) = eq x y && list_eq xs ys

  abbrev pub option_eq : Option A → Option A → Bool
  option_eq none none = true
  option_eq none (some y) = false
  option_eq (some x) none = false
  option_eq (some x) (some y) = eq x y

  module _ (sound : (x y : A) → eq x y ≡ true → x ≡ y) where
    pub list_eq_sound : (xs ys : List A) → list_eq xs ys ≡ true → xs ≡ ys
    unfolding list_eq
    list_eq_sound [] [] h = refl
    list_eq_sound [] (y ∷ ys) h = cc
    list_eq_sound (x ∷ xs) [] h = cc
    list_eq_sound (x ∷ xs) (y ∷ ys) h = ground (arith, sound x y, list_eq_sound xs ys)

    pub option_eq_sound : (x y : Option A) → option_eq x y ≡ true → x ≡ y
    option_eq_sound none none h = refl
    option_eq_sound none (some y) h = cc
    option_eq_sound (some x) none h = cc
    option_eq_sound (some x) (some y) h = cc (sound x y h)

  module _ (reflexive : (x : A) → eq x x ≡ true) where
    pub list_eq_refl : (xs : List A) → list_eq xs xs ≡ true
    unfolding list_eq
    list_eq_refl [] = refl
    list_eq_refl (x ∷ xs) = rw (reflexive x, list_eq_refl xs) refl

    pub option_eq_refl : (x : Option A) → option_eq x x ≡ true
    option_eq_refl none = refl
    option_eq_refl (some x) = reflexive x
