-- ===== src/Control/Fill.antt =====
-- src/app.cpp: the loops that fill the positions.
use prefill_opt.Prelude.{
  ℕ, zero, suc, ◌+◌, ◌<◌, ◌≤◌, ◌≡◌, ◌≢◌, refl, ap, subst, ◌∙◌, List, [], ◌∷◌, length, get_elem?,
  get_or, set, some, arith, dec_lt, length-set, get_elem?-set_self, get_elem?-set_ne,
}
use prefill_opt.Control.{fill}

module _ {ℓ} {A : Type ℓ} where
  pub length-fill :
      (value : ℕ → A) (from n : ℕ) (xs : List A) → length (fill value from n xs) ≡ length xs
  unfolding fill
  length-fill value from zero xs = refl
  length-fill value from (suc n) xs =
      length-fill value (from + 1) n (set xs from (value from)) ∙ length-set xs from (value from)

  fill_before :
      (value : ℕ → A) (from n : ℕ) (xs : List A) (j : ℕ)
      → j < from
      → get_elem? (fill value from n xs) j ≡ get_elem? xs j
  unfolding fill
  fill_before value from zero xs j h = refl
  fill_before value from (suc n) xs j h =
      fill_before value (from + 1) n (set xs from (value from)) j (omega (arith, h))
      ∙ get_elem?-set_ne xs (value from) (λ e. omega (arith, e, h))

  pub get_elem?-fill :
      (value : ℕ → A) (from n : ℕ) (xs : List A) (j : ℕ)
      → from ≤ j
      → j < from + n
      → j < length xs
      → get_elem? (fill value from n xs) j ≡ some (value j)
  unfolding fill
  get_elem?-fill value from zero xs j l h m = absurd (omega arith)
  get_elem?-fill value from (suc n) xs j l h m = elim (dec_lt from j) [
    | yes later ↦
        get_elem?-fill value (from + 1) n (set xs from (value from)) j (omega (arith, later))
          (omega (arith, h)) (omega (arith, m, length-set xs from (value from)))
    | no here ↦
        subst
          (λ k. get_elem? (fill value (from + 1) n (set xs from (value from))) k ≡ some (value k))
          (omega (arith, l, here))
          (fill_before value (from + 1) n (set xs from (value from)) from (omega arith)
            ∙ get_elem?-set_self xs from (value from) (omega (arith, l, m)))
  ]

module _ {ℓ} {A : Type ℓ} where
  pub get_or-set_self :
      (xs : List A) (i : ℕ) (v d : A) → i < length xs → get_or (set xs i v) i d ≡ v
  get_or-set_self [] i v d h = absurd (omega arith)
  get_or-set_self (x ∷ xs) zero v d h = refl
  get_or-set_self (x ∷ xs) (suc i) v d h = get_or-set_self xs i v d (omega (arith, h))

  pub get_or-set_ne :
      (xs : List A) {i j : ℕ} (v d : A) → i ≢ j → get_or (set xs i v) j d ≡ get_or xs j d
  get_or-set_ne [] v d h = refl
  get_or-set_ne (x ∷ xs) {i = zero} {j = zero} v d h = absurd (h refl)
  get_or-set_ne (x ∷ xs) {i = zero} {j = suc j} v d h = refl
  get_or-set_ne (x ∷ xs) {i = suc i} {j = zero} v d h = refl
  get_or-set_ne (x ∷ xs) {i = suc i} {j = suc j} v d h = get_or-set_ne xs v d (λ e. h (ap suc e))
