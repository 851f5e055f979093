-- ===== src/Daemon/Reconcile/Applied.antt =====
-- netd/src/reconcile.rs, `apply`: every step is asked of the kernel in turn, whatever it answers.
use netd.Base.{
  ℕ, ◌+◌, ◌≡◌, refl, ◌⊎◌, inl, inr, true, false, Option, none, some, List, [], ◌∷◌, ◌++◌, arith,
  Bool-cases, ◌==◌, ◌||◌,
}
use mathlib.Core.Path.{subst}
use netd.Daemon.Model.{Address, Route}
use netd.Daemon.Reconcile.{
  Op, link_up, link_down, mtu, add_address, del_address, add_route, del_route, Outcome, ok, error,
  Rtnl, perform, benign, counts, apply,
}

-- The steps `ys` are carried out after the steps `xs`, from the state that those leave.
pub apply-append :
    {S : Type 0} (rtnl : Rtnl S) (xs ys : List Op) (s : S)
    → (apply rtnl (xs ++ ys) s).0 ≡ (apply rtnl ys (apply rtnl xs s).0).0
unfolding apply
apply-append rtnl [] ys s = refl
apply-append rtnl (x ∷ xs) ys s = let (s1, r) = perform rtnl x s in apply-append rtnl xs ys s1

-- The call of the kernel that a step stands for, from the state `s`, with its answer.
pub data Asks {S : Type 0} (rtnl : Rtnl S) (s : S) : Op → S × Outcome → Type 0 where
  up : (i : ℕ) → Asks rtnl s (link_up i) (rtnl.set_link_up i true s)
  down : (i : ℕ) → Asks rtnl s (link_down i) (rtnl.set_link_up i false s)
  sized : (i m : ℕ) → Asks rtnl s (mtu i m) (rtnl.set_mtu i m s)
  gained : (a : Address) (b : Option ℕ) → Asks rtnl s (add_address a b) (rtnl.add_address_to a b s)
  lost : (a : Address) → Asks rtnl s (del_address a) (rtnl.del_address_of a s)
  routed : (r : Route) → Asks rtnl s (add_route r) (rtnl.add_route_to r s)
  unrouted : (r : Route) → Asks rtnl s (del_route r) (rtnl.del_route_of r s)

-- The errors that leave things as they are wanted: EEXIST (17) on adding an address or a route, ENOENT
-- (2) and ESRCH (3) on deleting one.
pub data IsForgiven : Op → Option ℕ → Type 0 where
  address_stands : (a : Address) (b : Option ℕ) → IsForgiven (add_address a b) (some 17)
  route_stands : (r : Route) → IsForgiven (add_route r) (some 17)
  address_gone : (a : Address) (e : ℕ) → (e ≡ 2) ⊎ (e ≡ 3) → IsForgiven (del_address a) (some e)
  route_gone : (r : Route) (e : ℕ) → (e ≡ 2) ⊎ (e ≡ 3) → IsForgiven (del_route r) (some e)

-- A run through all the steps, from one state of the kernel to another, with a number of failures.
pub data Runs {S : Type 0} (rtnl : Rtnl S) : List Op → S → S → ℕ → Type 0 where
  over : (s : S) → Runs rtnl [] s s 0
  went :
      {op : Op} {ops : List Op} {s t u : S} {n : ℕ}
      → Asks rtnl s op (t, ok)
      → Runs rtnl ops t u n
      → Runs rtnl (op ∷ ops) s u n
  forgave :
      {op : Op} {ops : List Op} {s t u : S} {n : ℕ} (e : Option ℕ)
      → Asks rtnl s op (t, error e)
      → IsForgiven op e
      → Runs rtnl ops t u n
      → Runs rtnl (op ∷ ops) s u n
  failed :
      {op : Op} {ops : List Op} {s t u : S} {n : ℕ} (e : Option ℕ)
      → Asks rtnl s op (t, error e)
      → (¬ IsForgiven op e)
      → Runs rtnl ops t u n
      → Runs rtnl (op ∷ ops) s u (1 + n)

perform-Asks : {S : Type 0} (rtnl : Rtnl S) (s : S) (op : Op) → Asks rtnl s op (perform rtnl op s)
perform-Asks rtnl s (link_up i) = up i
perform-Asks rtnl s (link_down i) = down i
perform-Asks rtnl s (mtu i m) = sized i m
perform-Asks rtnl s (add_address a b) = gained a b
perform-Asks rtnl s (del_address a) = lost a
perform-Asks rtnl s (add_route r) = routed r
perform-Asks rtnl s (del_route r) = unrouted r

two_cases : (e : ℕ) → (e == 2 || e == 3) ≡ true → (e ≡ 2) ⊎ (e ≡ 3)
two_cases e h = ground (arith, h)

benign-IsForgiven : (op : Op) (e : Option ℕ) → benign op e ≡ true → IsForgiven op e
benign-IsForgiven (add_route r) (some e) h =
    subst (λ x. IsForgiven (add_route r) (some x)) (ground (arith, h)) (route_stands r)
benign-IsForgiven (add_address a b) (some e) h =
    subst (λ x. IsForgiven (add_address a b) (some x)) (ground (arith, h)) (address_stands a b)
benign-IsForgiven (del_route r) (some e) h = route_gone r e (two_cases e h)
benign-IsForgiven (del_address a) (some e) h = address_gone a e (two_cases e h)
benign-IsForgiven (add_route r) none h = cc h
benign-IsForgiven (add_address a b) none h = cc h
benign-IsForgiven (del_route r) none h = cc h
benign-IsForgiven (del_address a) none h = cc h
benign-IsForgiven (link_up i) e h = cc h
benign-IsForgiven (link_down i) e h = cc h
benign-IsForgiven (mtu i m) e h = cc h

IsForgiven-benign : {op : Op} {e : Option ℕ} → IsForgiven op e → benign op e ≡ true
IsForgiven-benign (address_stands a b) = refl
IsForgiven-benign (route_stands r) = refl
IsForgiven-benign (address_gone a e h) = elim h [
  | inl h ↦ ground (arith, h)
  | inr h ↦ ground (arith, h)
]
IsForgiven-benign (route_gone r e h) = elim h [
  | inl h ↦ ground (arith, h)
  | inr h ↦ ground (arith, h)
]

-- One step in front of a run, by what the kernel answers.
step-Runs :
    {S : Type 0} (rtnl : Rtnl S) (op : Op) (ops : List Op) (s t u : S) (r : Outcome) (n : ℕ)
    → Asks rtnl s op (t, r)
    → Runs rtnl ops t u n
    → Runs rtnl (op ∷ ops) s u (counts op r + n)
step-Runs rtnl op ops s t u ok n asks run =
    subst (Runs rtnl (op ∷ ops) s u) (omega arith) (went asks run)
step-Runs rtnl op ops s t u (error e) n asks run = elim (Bool-cases (benign op e)) [
  | inl b ↦ rw b (
      subst (Runs rtnl (op ∷ ops) s u) (omega arith)
        (forgave e asks (benign-IsForgiven op e b) run))
  | inr b ↦
      rw b (failed e asks (λ f. let wrong = IsForgiven-benign f in ground (arith, b, wrong)) run)
]

-- `apply` runs through all its steps, whatever the kernel answers: each step makes its own call, from
-- the state that the step before it left; an error does not stop those behind it, and is counted
-- exactly where it is not one that leaves things as they are wanted.
pub apply-Runs :
    {S : Type 0} (rtnl : Rtnl S) (ops : List Op) (s : S)
    → Runs rtnl ops s (apply rtnl ops s).0 (apply rtnl ops s).1
unfolding apply
apply-Runs rtnl [] s = over s
apply-Runs rtnl (op ∷ ops) s =
    let t = (perform rtnl op s).0 in
    step-Runs rtnl op ops s t (apply rtnl ops t).0 (perform rtnl op s).1 (apply rtnl ops t).1
      (perform-Asks rtnl s op) (apply-Runs rtnl ops t)
