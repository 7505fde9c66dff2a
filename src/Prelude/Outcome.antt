-- ===== src/Prelude/Outcome.antt =====
-- Exceptions and failed assertions as values: `err e` where the code throws or aborts.
use mathlib.Core.Path.{◌≡◌, refl}
use mathlib.Core.Logic.{◌⊎◌, inl, inr}
use mathlib.Core.Bool.{Bool, true, false}

pub data Result {ℓ} (E : Type 0) (A : Type ℓ) : Type ℓ where
  ok : A → Result E A
  err : E → Result E A

-- `if (!test) throw e;`, and `assert(test)`
abbrev pub guard : {E : Type 0} → Bool → E → Result E (Unit {0})
guard false failure = err failure
guard true failure = ok tt

-- What follows a statement that may fail.
infixl 5 ◌>>=◌ ◌>>◌
abbrev pub ◌>>=◌ {ℓ κ} :
    {E : Type 0} {A : Type ℓ} {B : Type κ} → Result E A → (A → Result E B) → Result E B
err failure >>= next = err failure
ok value >>= next = next value

abbrev pub ◌>>◌ {ℓ} : {E : Type 0} {B : Type ℓ} → Result E (Unit {0}) → Result E B → Result E B
check >> next = check >>= λ _. next

-- A chain that succeeds has a first step that succeeds.
pub >>=-eq-ok {ℓ κ} :
    {E : Type 0} {A : Type ℓ} {B : Type κ} (first : Result E A) (next : A → Result E B) {last : B}
    → (first >>= next) ≡ ok last
    → (value : A) × (first ≡ ok value) × (next value ≡ ok last)
>>=-eq-ok (err failure) next chain = cc
>>=-eq-ok (ok value) next chain = (value, refl, chain)

-- For a split on what a step gives.
pub Result-cases {ℓ} :
    {E : Type 0} {A : Type ℓ} (step : Result E A)
    → ((value : A) × (step ≡ ok value)) ⊎ ((failure : E) × (step ≡ err failure))
Result-cases (ok value) = inl (value, refl)
Result-cases (err failure) = inr (failure, refl)

pub ok-inj {ℓ} : {E : Type 0} {A : Type ℓ} {a b : A} → ◌≡◌ {A = Result E A} (ok a) (ok b) → a ≡ b
ok-inj e = cc

-- A chain behind a check that succeeds passes the check.
pub guard-eq-ok {ℓ} :
    {E : Type 0} {A : Type ℓ} (test : Bool) (failure : E) (next : Result E A) {last : A}
    → (guard test failure >> next) ≡ ok last
    → (test ≡ true) × (next ≡ ok last)
guard-eq-ok false failure next chain = cc
guard-eq-ok true failure next chain = (refl, chain)
