-- ===== src/Base/Rounds.antt =====
-- `Loop` as a monad: code around a loop on fuel waits for it.
use netd.Base.{◌≡◌, refl, Loop, done, stuck}

infixl 5 ◌>>=◌
abbrev pub ◌>>=◌ {ℓ κ} : {A : Type ℓ} {B : Type κ} → Loop A → (A → Loop B) → Loop B
done a >>= f = f a
stuck >>= f = stuck

-- What a finished chain did first.
pub >>=-eq-done {ℓ κ} :
    {A : Type ℓ} {B : Type κ} (m : Loop A) (f : A → Loop B) {b : B}
    → (m >>= f) ≡ done b
    → (a : A) × (m ≡ done a) × (f a ≡ done b)
>>=-eq-done (done a) f h = (a, refl, h)
>>=-eq-done stuck f h = cc
