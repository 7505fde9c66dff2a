-- ===== src/Threads/Tests.antt =====
-- Runs of the thread shares, and the theorems at ten items on three or four threads.
use prefill_opt.Prelude.{ℕ, ◌+◌, ◌/◌, ◌<◌, ◌≡◌, ◌⊎◌, refl, arith, add32, mul32, [], ◌∷◌, map}
use prefill_opt.Threads.{split_start, split_end}
use prefill_opt.Threads.Split.{split_covers}

starts : map (split_start 10 4) (0 ∷ 1 ∷ 2 ∷ 3 ∷ []) ≡ 0 ∷ 3 ∷ 6 ∷ 8 ∷ []
unfolding split_start add32 mul32
starts = refl

split_covers_example :
    (split_start 10 3 0 ≡ 0)
    × ((t : ℕ) → t + 1 < 3 → split_start 10 3 (t + 1) ≡ split_end 10 3 t)
    × (split_end 10 3 2 ≡ 10)
    × ((t : ℕ)
        → t < 3
        → (split_end 10 3 t ≡ split_start 10 3 t + 10 / 3)
          ⊎ (split_end 10 3 t ≡ split_start 10 3 t + 10 / 3 + 1))
split_covers_example = split_covers 10 3 (omega arith) (omega arith)
