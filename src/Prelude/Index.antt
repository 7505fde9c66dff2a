-- ===== src/Prelude/Index.antt =====
-- Two-digit numbers in a mixed radix: how ranks, slices and rows are numbered.
use Prim.Native.Nat.{ℕ, ◌+◌, ◌-◌, ◌*◌, ◌/◌, ◌%◌, ◌<◌, ◌≤◌}
use mathlib.Core.Path.{◌≡◌, ◌∙◌, ap, sym}
use native.Mathlib.Omega.{arith}
use native.Mathlib.Nat.{
  mul-add-div_right, mul-add-mod_self_right, div-eq_of_lt, mod-eq_of_lt, add-zero, div-add-mod',
  div-lt_iff_lt-mul, mod-lt,
}

pub index-lt : (a b n m : ℕ) → a < n → b < m → a * m + b < n * m
index-lt a b n m lt_a lt_b = grind arith

pub index-div : (a b m : ℕ) → b < m → (a * m + b) / m ≡ a
index-div a b m lt_b =
    mul-add-div_right (omega arith) a b ∙ ap (λ k. a + k) (div-eq_of_lt lt_b) ∙ add-zero a

pub index-mod : (a b m : ℕ) → b < m → (a * m + b) % m ≡ b
index-mod a b m lt_b = mul-add-mod_self_right a m b ∙ mod-eq_of_lt lt_b

pub index-join : (x m : ℕ) → x / m * m + x % m ≡ x
index-join x m = div-add-mod' x m

pub div-lt : (x n m : ℕ) → 0 < m → x < n * m → x / m < n
div-lt x n m pos h = (div-lt_iff_lt-mul pos).1 h

pub le-mul_pos : (x m : ℕ) → 1 ≤ m → x ≤ x * m
le-mul_pos x m h = grind arith

-- A number lies in the `q`-th block of `m` exactly when its quotient is `q`.
pub in_block : (x q m : ℕ) → q * m ≤ x → x < q * m + m → x / m ≡ q
in_block x q m l h =
    let e : q * m + (x - q * m) ≡ x = omega arith in
    ap (λ k. k / m) (sym e) ∙ index-div q (x - q * m) m (omega arith)

pub block_of : (x m : ℕ) → 0 < m → (x / m * m ≤ x) × (x < x / m * m + m)
block_of x m pos = omega (arith, index-join x m, mod-lt x pos)

pub index-injective : (a b c d m : ℕ) → b < m → d < m → a * m + b ≡ c * m + d → (a ≡ c) × (b ≡ d)
index-injective a b c d m lt_b lt_d e = (
  sym (index-div a b m lt_b) ∙ ap (λ k. k / m) e ∙ index-div c d m lt_d,
  sym (index-mod a b m lt_b) ∙ ap (λ k. k % m) e ∙ index-mod c d m lt_d,
)
