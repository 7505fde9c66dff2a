-- ===== src/Prelude/Words.antt =====
-- `NnUint` is `uint32_t` and `NnSize` is a 64-bit `size_t`: sums, differences and products wrap.
use Prim.Native.Nat.{ℕ, ◌+◌, ◌-◌, ◌*◌, ◌%◌, ◌^◌, ◌<◌, ◌≤◌}
use mathlib.Core.Path.{◌≡◌}
use native.Mathlib.Omega.{arith}
use native.Mathlib.Nat.{mod-eq_of_lt}

abbrev pub u32 : ℕ
u32 = 2 ^ 32

abbrev pub u64 : ℕ
u64 = 2 ^ 64

-- `UINT32_MAX`
abbrev pub u32_max : ℕ
u32_max = 0xffff_ffff

unfoldable pub add32 : ℕ → ℕ → ℕ
add32 a b = (a + b) % u32

unfoldable pub sub32 : ℕ → ℕ → ℕ
sub32 a b = (a + u32 - b) % u32

unfoldable pub mul32 : ℕ → ℕ → ℕ
mul32 a b = (a * b) % u32

unfoldable pub mul64 : ℕ → ℕ → ℕ
mul64 a b = (a * b) % u64

pub add32-eq : (a b : ℕ) → a + b < u32 → add32 a b ≡ a + b
unfolding add32
add32-eq a b h = mod-eq_of_lt h

pub sub32-eq : (a b : ℕ) → b ≤ a → a < u32 → sub32 a b ≡ a - b
unfolding sub32
sub32-eq a b h l = omega arith

pub mul32-eq : (a b : ℕ) → a * b < u32 → mul32 a b ≡ a * b
unfolding mul32
mul32-eq a b h = mod-eq_of_lt h

pub mul64-eq : (a b : ℕ) → a * b < u64 → mul64 a b ≡ a * b
unfolding mul64
mul64-eq a b h = mod-eq_of_lt h

unfoldable pub add64 : ℕ → ℕ → ℕ
add64 a b = (a + b) % u64

pub add64-eq : (a b : ℕ) → a + b < u64 → add64 a b ≡ a + b
unfolding add64
add64-eq a b h = mod-eq_of_lt h

pub mul32-lt : (a b : ℕ) → mul32 a b < u32
unfolding mul32
mul32-lt a b = omega arith
