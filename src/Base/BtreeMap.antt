-- ===== src/Base/BtreeMap.antt =====
-- `BTreeMap` of the standard library: the entries in the order of their keys, each key once. A key is
-- compared by the list of numbers that it stands for.
use netd.Base.{
  ℕ, ◌≡◌, refl, ap, ◌∙◌, inl, inr, false, Option, none, some, List, [], ◌∷◌, arith, if◌then◌else◌,
  Bool-cases, All,
}
use mathlib.Core.Path.{subst}
use netd.Base.Bytes.{less, bytes_eq, bytes_eq_sound}

module _ {K V : Type 0} (key : K → List ℕ) where
  unfoldable pub get : K → List (K × V) → Option V
  get k [] = none
  get k ((j, v) ∷ m) = if bytes_eq (key k) (key j) then some v else get k m

  unfoldable pub insert : K → V → List (K × V) → List (K × V)
  insert k v [] = (k, v) ∷ []
  insert k v ((j, w) ∷ m) =
      let rest = insert k v m in
      if bytes_eq (key k) (key j)
      then (j, v) ∷ m
      else if less (key k) (key j)
      then (k, v) ∷ (j, w) ∷ m
      else (j, w) ∷ rest

  unfoldable pub remove : K → List (K × V) → List (K × V)
  remove k [] = []
  remove k ((j, w) ∷ m) =
      let rest = remove k m in if bytes_eq (key k) (key j) then m else (j, w) ∷ rest

  -- Through `get_mut`.
  unfoldable pub update : K → (V → V) → List (K × V) → List (K × V)
  update k f [] = []
  update k f ((j, w) ∷ m) =
      let rest = update k f m in if bytes_eq (key k) (key j) then (j, f w) ∷ m else (j, w) ∷ rest

  -- What is put in is found under its key, and what was under another key stays.
  pub get-insert :
      (k j : K) (v : V) (m : List (K × V))
      → get k (insert j v m) ≡ (if bytes_eq (key k) (key j) then some v else get k m)
  unfolding get insert
  get-insert k j v [] = refl
  get-insert k j v ((i, w) ∷ m) = elim (Bool-cases (bytes_eq (key j) (key i))) [
    | inl e ↦
        let same : bytes_eq (key k) (key j) ≡ bytes_eq (key k) (key i) =
          ap (bytes_eq (key k)) (bytes_eq_sound (key j) (key i) e) in
        elim (Bool-cases (bytes_eq (key k) (key i))) [
          | inl b ↦ rw (e, same ∙ b, b) refl
          | inr b ↦ rw (e, same ∙ b, b) refl
        ]
    | inr e ↦ elim (Bool-cases (less (key j) (key i))) [
      | inl l ↦ rw (e, l) refl
      | inr l ↦
          rw (e, l)
            (elim (Bool-cases (bytes_eq (key k) (key i))) [
              | inl b ↦
                  let found = bytes_eq_sound (key k) (key i) b in
                  let differs : bytes_eq (key k) (key j) ≡ false =
                    elim (Bool-cases (bytes_eq (key k) (key j))) [
                      | inr d ↦ d
                      | inl d ↦
                          let wrong =
                            ap (λ x. bytes_eq x (key i)) (bytes_eq_sound (key k) (key j) d) in
                          ground (arith, wrong, b, e)
                    ] in
                  rw (b, differs) refl
              | inr b ↦ rw b (get-insert k j v m)
            ])
    ]
  ]

  module _ (P : V → Type 0) where
    pub All-insert :
        (k : K) (v : V) (m : List (K × V))
        → P v
        → All (λ e. P e.1) m
        → All (λ e. P e.1) (insert k v m)
    unfolding insert
    All-insert k v [] p h = (p, tt)
    All-insert k v ((j, w) ∷ m) p h = elim (Bool-cases (bytes_eq (key k) (key j))) [
      | inl e ↦ rw (e, insert) (p, h.1)
      | inr e ↦
          rw (e, insert)
            (elim (Bool-cases (less (key k) (key j))) [
              | inl l ↦ rw l (p, h)
              | inr l ↦ rw l (h.0, All-insert k v m p h.1)
            ])
    ]

    pub All-remove : (k : K) (m : List (K × V)) → All (λ e. P e.1) m → All (λ e. P e.1) (remove k m)
    unfolding remove
    All-remove k [] h = tt
    All-remove k ((j, w) ∷ m) h = elim (Bool-cases (bytes_eq (key k) (key j))) [
      | inl e ↦ rw (e, remove) h.1
      | inr e ↦ rw (e, remove) (h.0, All-remove k m h.1)
    ]

    pub All-update :
        (k : K) (f : V → V) (m : List (K × V))
        → ((v : V) → P v → P (f v))
        → All (λ e. P e.1) m
        → All (λ e. P e.1) (update k f m)
    unfolding update
    All-update k f [] g h = tt
    All-update k f ((j, w) ∷ m) g h = elim (Bool-cases (bytes_eq (key k) (key j))) [
      | inl e ↦ rw (e, update) (g w h.0, h.1)
      | inr e ↦ rw (e, update) (h.0, All-update k f m g h.1)
    ]

    pub get-All : (k : K) (m : List (K × V)) (v : V) → All (λ e. P e.1) m → get k m ≡ some v → P v
    unfolding get
    get-All k [] v h e = cc
    get-All k ((j, w) ∷ m) v h e = elim (Bool-cases (bytes_eq (key k) (key j))) [
      | inl b ↦ subst P (ground (arith, e, b)) h.0
      | inr b ↦ get-All k m v h.1 (ground (arith, e, b))
    ]
