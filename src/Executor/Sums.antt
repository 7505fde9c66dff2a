-- ===== src/Executor/Sums.antt =====
-- Sums over the entries of a list.
use prefill_opt.Prelude.{
  ℕ, zero, suc, ◌+◌, ◌≤◌, ◌≡◌, ◌⊎◌, inl, inr, refl, List, [], ◌∷◌, length, get_elem?, set, some,
  arith, replicate,
}

module _ {A : Type 0} (f : A → ℕ) where
  unfoldable pub sum : List A → ℕ
  sum [] = 0
  sum (x ∷ xs) = f x + sum xs

  pub sum-set :
      (xs : List A) (i : ℕ) {x : A} (y : A)
      → get_elem? xs i ≡ some x
      → sum (set xs i y) + f x ≡ sum xs + f y
  unfolding sum
  sum-set [] i y h = cc
  sum-set (z ∷ xs) zero y h = ground (arith, h)
  sum-set (z ∷ xs) (suc i) y h = omega (arith, sum-set xs i y h)

  pub sum_zero : (xs : List A) (i : ℕ) {x : A} → sum xs ≡ 0 → get_elem? xs i ≡ some x → f x ≡ 0
  unfolding sum
  sum_zero [] i e h = cc
  sum_zero (z ∷ xs) zero e h = ground (arith, h, e)
  sum_zero (z ∷ xs) (suc i) e h = sum_zero xs i (omega (arith, e)) h

  pub sum_pos : (xs : List A) (i : ℕ) {x : A} → f x ≡ 1 → get_elem? xs i ≡ some x → 1 ≤ sum xs
  unfolding sum
  sum_pos [] i e h = cc
  sum_pos (z ∷ xs) zero e h = ground (arith, e, h)
  sum_pos (z ∷ xs) (suc i) e h = omega (arith, sum_pos xs i e h)

  pub sum_all_zero :
      (xs : List A) → ((i : ℕ) (x : A) → get_elem? xs i ≡ some x → f x ≡ 0) → sum xs ≡ 0
  unfolding sum
  sum_all_zero [] h = refl
  sum_all_zero (x ∷ xs) h = omega (arith, h 0 x refl, sum_all_zero xs (λ i y e. h (suc i) y e))

  pub sum_all_one :
      (xs : List A) → ((i : ℕ) (x : A) → get_elem? xs i ≡ some x → f x ≡ 1) → sum xs ≡ length xs
  unfolding sum
  sum_all_one [] h = refl
  sum_all_one (x ∷ xs) h = omega (arith, h 0 x refl, sum_all_one xs (λ i y e. h (suc i) y e))

  sum-le : (xs : List A) → ((x : A) → f x ≤ 1) → sum xs ≤ length xs
  unfolding sum
  sum-le [] h = omega arith
  sum-le (x ∷ xs) h = omega (arith, h x, sum-le xs h)

  pub sum_full :
      (xs : List A) (i : ℕ) {x : A}
      → ((x : A) → f x ≤ 1)
      → sum xs ≡ length xs
      → get_elem? xs i ≡ some x
      → f x ≡ 1
  unfolding sum
  sum_full [] i h e g = cc
  sum_full (z ∷ xs) zero h e g = ground (arith, g, e, h z, sum-le xs h)
  sum_full (z ∷ xs) (suc i) h e g = sum_full xs i h (omega (arith, e, h z, sum-le xs h)) g

module _ {A : Type 0} where
  -- An entry of a changed list is the new one or an old one.
  pub get_elem?-set :
      (xs : List A) (i j : ℕ) (y : A) {x : A}
      → get_elem? (set xs i y) j ≡ some x
      → (x ≡ y) ⊎ (get_elem? xs j ≡ some x)
  get_elem?-set [] i j y h = inr h
  get_elem?-set (z ∷ xs) zero zero y h = inl cc
  get_elem?-set (z ∷ xs) zero (suc j) y h = inr h
  get_elem?-set (z ∷ xs) (suc i) zero y h = inr h
  get_elem?-set (z ∷ xs) (suc i) (suc j) y h = get_elem?-set xs i j y h

  pub get_elem?-replicate : (n i : ℕ) (y : A) {x : A} → get_elem? (replicate n y) i ≡ some x → x ≡ y
  get_elem?-replicate zero i y h = cc
  get_elem?-replicate (suc n) zero y h = cc
  get_elem?-replicate (suc n) (suc i) y h = get_elem?-replicate n i y h
