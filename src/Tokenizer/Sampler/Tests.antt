-- ===== src/Tokenizer/Sampler/Tests.antt =====
-- Runs of the samplers over numbers in the place of floats.
use prefill_opt.Prelude.{ℕ, ◌+◌, ◌≡◌, refl, arith, Bool, [], ◌∷◌, ltb}
use prefill_opt.Tokenizer.Sampler.{sample_argmax, argmax_from, sample_mult, mult_from}
use prefill_opt.Tokenizer.Sampler.Greedy.{IsOrder}

abbrev gt : ℕ → ℕ → Bool
gt a b = ltb b a

first_of_two : sample_argmax gt 3 (5 ∷ 1 ∷ 5 ∷ []) ≡ 1
unfolding sample_argmax argmax_from
first_of_two = refl

third : sample_mult ltb ◌+◌ 0 6 3 (2 ∷ 4 ∷ 1 ∷ []) ≡ 2
unfolding sample_mult mult_from
third = refl

gt-IsOrder : IsOrder gt
gt-IsOrder = record { asym = λ a b h. ground (arith, h); chain = λ a b c h k. ground (arith, h, k) }
