-- ===== src/Tokenizer/Sampler/Draw.antt =====
-- The draw from the distribution.
use prefill_opt.Prelude.{
  ℕ, zero, suc, ◌+◌, ◌<◌, ◌≡◌, refl, arith, Bool, true, false, List, [], ◌∷◌, length, Bool-cases,
  inl, inr, ◌⊎◌,
}
use prefill_opt.Tokenizer.Sampler.{mult_from, sample_mult}

-- The sum of the values up to the one at `k`, in order, onto `sum`.
abbrev pub cumulative : {F : Type 0} → (F → F → F) → F → List F → ℕ → F
cumulative add sum [] k = sum
cumulative add sum (p ∷ ps) zero = add sum p
cumulative add sum (p ∷ ps) (suc k) = cumulative add (add sum p) ps k

-- The draw is the first place whose sum exceeds the coin; without one it is `last`.
abbrev pub IsDraw :
    {F : Type 0} → (F → F → Bool) → (F → F → F) → F → ℕ → ℕ → F → List F → ℕ → Type 0
IsDraw lt add coin last i sum ps r =
    ((k : ℕ) × (k < length ps)
      × (r ≡ i + k)
      × (lt coin (cumulative add sum ps k) ≡ true)
      × ((j : ℕ) → j < k → lt coin (cumulative add sum ps j) ≡ false))
    ⊎ ((r ≡ last) × ((j : ℕ) → j < length ps → lt coin (cumulative add sum ps j) ≡ false))

module _ {F : Type 0} (lt : F → F → Bool) (add : F → F → F) (coin : F) (last : ℕ) where
  next-IsDraw :
      (i : ℕ) (sum p : F) (ps : List F) (r : ℕ)
      → lt coin (add sum p) ≡ false
      → IsDraw lt add coin last (i + 1) (add sum p) ps r
      → IsDraw lt add coin last i sum (p ∷ ps) r
  next-IsDraw i sum p ps r n (inl (k, h, e, y, f)) =
      inl (suc k, omega arith, omega (arith, e), y, before)
    where
      before : (j : ℕ) → j < suc k → lt coin (cumulative add sum (p ∷ ps) j) ≡ false
      before zero h = n
      before (suc j) h = f j (omega (arith, h))
  next-IsDraw i sum p ps r n (inr (e, f)) = inr (e, before)
    where
      before : (j : ℕ) → j < length (p ∷ ps) → lt coin (cumulative add sum (p ∷ ps) j) ≡ false
      before zero h = n
      before (suc j) h = f j (omega (arith, h))

  mult_from-IsDraw :
      (i : ℕ) (sum : F) (ps : List F)
      → IsDraw lt add coin last i sum ps (mult_from lt add coin last i sum ps)
  unfolding mult_from
  mult_from-IsDraw i sum [] = inr (refl, λ j h. absurd (omega (arith, h)))
  mult_from-IsDraw i sum (p ∷ ps) = elim (Bool-cases (lt coin (add sum p))) [
    | inl y ↦ rw y (inl (0, omega arith, omega arith, y, λ j h. absurd (omega (arith, h))))
    | inr n ↦ rw n (
        next-IsDraw i sum p ps (mult_from lt add coin last (i + 1) (add sum p) ps) n
          (mult_from-IsDraw (i + 1) (add sum p) ps))
  ]

-- `sample_mult` returns the first index at which the sum of the probabilities exceeds the coin, and
-- the last index if there is none.
pub sample_mult_lem :
    {F : Type 0} (lt : F → F → Bool) (add : F → F → F) (zero_f coin p : F) (ps : List F)
    → IsDraw lt add coin (length ps) 0 zero_f (p ∷ ps) (sample_mult lt add zero_f coin p ps)
unfolding sample_mult
sample_mult_lem lt add zero_f coin p ps = mult_from-IsDraw lt add coin (length ps) 0 zero_f (p ∷ ps)
