-- ===== src/Core/Weights/Copy.antt =====
-- Copying consecutive blocks.
use prefill_opt.Prelude.{ℕ, ◌+◌, ◌-◌, ◌≤◌, ◌≡◌, arith, ltb, if◌then◌else◌, ap}
use prefill_opt.Core.Weights.{Memory, memcpy}

-- The first `m` bytes come from `weight` at an offset, the others are as in `before`.
abbrev pub Copied : {B : Type 0} → Memory B → ℕ → ℕ → Memory B → Memory B → Type 0
Copied weight offset m before now =
    (x : ℕ) → now x ≡ (if ltb x m then weight (offset + x) else before x)

module _ {B : Type 0} (weight before now : Memory B) (offset m n : ℕ) where
  -- The next block extends the copied part.
  pub memcpy-Copied :
      Copied weight offset m before now
      → Copied weight offset (m + n) before (memcpy m (offset + m) n weight now)
  unfolding memcpy
  memcpy-Copied h x = ground (arith, h x, same)
    where
      same : m ≤ x → weight (offset + m + (x - m)) ≡ weight (offset + x)
      same l = ap weight (omega arith)
