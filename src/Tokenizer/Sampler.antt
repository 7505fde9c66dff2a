-- ===== src/Tokenizer/Sampler.antt =====
-- `sample_argmax` and `sample_mult` of src/tokenizer.cpp. Floats are a parameter, with `>`, `<` and `+`;
-- a sum starts from `0.0f`, `zero_f`. Both are called with at least one probability, the first of
-- which stands apart from the others.
pub mod Greedy
pub mod Draw
mod Tests
use prefill_opt.Prelude.{ℕ, suc, ◌+◌, Bool, List, [], ◌∷◌, if◌then◌else◌, length}

module _ {F : Type 0} where
  -- The best so far: its index, and its value.
  abbrev pub better : (F → F → Bool) → ℕ → F → ℕ × F → ℕ × F
  better gt i p best = if gt p best.1 then (i, p) else best

  -- The loop from index `i` on.
  unfoldable pub argmax_from : (F → F → Bool) → ℕ → List F → ℕ × F → ℕ × F
  argmax_from gt i [] best = best
  argmax_from gt i (p ∷ ps) best = argmax_from gt (i + 1) ps (better gt i p best)

  unfoldable pub sample_argmax : (F → F → Bool) → F → List F → ℕ
  sample_argmax gt p ps = (argmax_from gt 1 ps (0, p)).0

  -- The loop from index `i` on, with the sum up to there; `last` is `n - 1`.
  unfoldable pub mult_from : (F → F → Bool) → (F → F → F) → F → ℕ → ℕ → F → List F → ℕ
  mult_from lt add coin last i cdf [] = last
  mult_from lt add coin last i cdf (p ∷ ps) =
      let rest = mult_from lt add coin last (i + 1) (add cdf p) ps in
      if lt coin (add cdf p) then i else rest

  unfoldable pub sample_mult : (F → F → Bool) → (F → F → F) → F → F → F → List F → ℕ
  sample_mult lt add zero_f coin p ps = mult_from lt add coin (length ps) 0 zero_f (p ∷ ps)
