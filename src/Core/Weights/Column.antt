-- ===== src/Core/Weights/Column.antt =====
-- A column-split weight: node `k` gets the `k`-th part of every row.
use native.Mathlib.Nat.{mul-le-mul_right}
use prefill_opt.Prelude.{
  ℕ, zero, suc, ◌+◌, ◌-◌, ◌*◌, ◌/◌, ◌%◌, ◌≤◌, ◌<◌, ◌≡◌, refl, arith, ltb, ok, u32, u64, mul64-eq,
  add64-eq, ==_iff, ◌∙◌, index-lt, ltb→lt, Bool-cases, inl, inr, ap, subst,
}
use prefill_opt.Core.{ColMatmulSlice, get_block_size, get_bytes}
use prefill_opt.Core.Weights.{Memory, memcpy, copy_columns, split_col_matmul_weight}

-- Rows `[0, d)` of `width` bytes come from the rows of `weight`, which are `stride` bytes long, at a
-- column; the other bytes are as in `before`.
abbrev pub Columns : {B : Type 0} → Memory B → ℕ → ℕ → ℕ → ℕ → Memory B → Memory B → Type 0
Columns weight stride width column d before now =
    ((r x : ℕ) → r < d → x < width → now (r * width + x) ≡ weight (r * stride + column + x))
    × ((x : ℕ) → d * width ≤ x → now x ≡ before x)

module _ {B : Type 0} (weight before now : Memory B) (stride width column d : ℕ) where
  memcpy-Columns :
      Columns weight stride width column d before now
      → Columns weight stride width column
          (d + 1)
          before
          (memcpy (width * d) (stride * d + column) width weight now)
  unfolding memcpy
  memcpy-Columns h = (rows, rest)
    where
      within : (r x : ℕ) → r < d → x < width → r * width + x < width * d
      within r x l k = let w = index-lt r x d width l k in omega (arith, w)

      row_d :
          (x : ℕ)
          → x < width
          → memcpy (width * d) (stride * d + column) width weight now (width * d + x)
            ≡ weight (stride * d + column + x)
      row_d x k = ground (arith, ap weight (tail x))
        where
          tail :
              (x : ℕ) → stride * d + column + (width * d + x - width * d) ≡ stride * d + column + x
          tail x = omega arith

      rows :
          (r x : ℕ)
          → r < d + 1
          → x < width
          → memcpy (width * d) (stride * d + column) width weight now (r * width + x)
            ≡ weight (r * stride + column + x)
      rows r x l k = elim (Bool-cases (ltb r d)) [
        | inl t ↦
            let w = within r x (ltb→lt r d t) k in ground (arith, w) ∙ h.0 r x (ltb→lt r d t) k
        | inr t ↦
            let e : r ≡ d = ground (arith, t, l) in
            let s : r * width + x ≡ width * d + x = rw e (omega arith) in
            let u : stride * d + column + x ≡ r * stride + column + x = rw e (omega arith) in
            rw s (row_d x k ∙ ap weight u)
      ]

      rest :
          (x : ℕ)
          → (d + 1) * width ≤ x
          → memcpy (width * d) (stride * d + column) width weight now x ≡ before x
      rest x l =
          let a : width * d + width ≤ x = omega (arith, l) in
          ground (arith, a) ∙ h.1 x (omega (arith, l))

module _ {B : Type 0} (weight before : Memory B) (stride width column d0 : ℕ) where
  copy_columns-Columns :
      (rest d : ℕ) (now : Memory B)
      → d + rest ≡ d0
      → d0 * stride + column < u64
      → d0 * width < u64
      → Columns weight stride width column d before now
      → Columns weight stride width column d0 before
          (copy_columns weight stride width column d rest now)
  unfolding copy_columns
  copy_columns-Columns zero d now e far small h =
      let e' : d ≡ d0 = omega arith in
      subst (λ k. Columns weight stride width column k before now) e' h
  copy_columns-Columns (suc rest) d now e far small h =
      let a : d * stride ≤ d0 * stride = mul-le-mul_right stride (omega (arith, e)) in
      let b : d * width ≤ d0 * width = mul-le-mul_right width (omega (arith, e)) in
      rw
        (
          mul64-eq width d (omega (arith, b, small)),
          mul64-eq stride d (omega (arith, a, far)),
          add64-eq (stride * d) column (omega (arith, a, far)),
        )
        (copy_columns-Columns rest (d + 1) _ (omega (arith, e)) far small
          (memcpy-Columns weight before now stride width column d h))

-- `splitColMatmulWeight`, for rows of `n / block` whole blocks of `bytes` bytes, of which each node
-- takes `n0 / block`, and with every offset in 64 bits: byte `x` of row `r` of node `k`'s buffer is
-- byte `k * width + x` of row `r` of the weight, where `width` is `n0 / block * bytes`; the buffer
-- behind the `d` rows is as before. The returned count is `d * width` modulo `2 ^ 32`.
pub split_col_lem :
    {B : Type 0} (weight before : Memory B) (slice : ColMatmulSlice) (k block bytes : ℕ)
    → get_block_size slice.float_type ≡ ok block
    → get_bytes slice.float_type block ≡ ok bytes
    → slice.n0 % block ≡ 0
    → slice.d * (slice.n / block * bytes) + k * (slice.n0 / block * bytes) < u64
    → slice.n / block * bytes < u64
    → slice.n0 / block * bytes < u64
    → slice.d * (slice.n0 / block * bytes) < u64
    → (after : Memory B) × (split_col_matmul_weight weight slice k before
        ≡ ok (slice.n0 / block * bytes * slice.d % u32, after))
      × Columns weight
          (slice.n / block * bytes)
          (slice.n0 / block * bytes)
          (k * (slice.n0 / block * bytes))
          slice.d
          before
          after
unfolding split_col_matmul_weight
split_col_lem {B} weight before slice k block bytes eb ey whole far s1 s2 s3 = (
  after,
  rw
      (
        eb,
        ey,
        (==_iff (slice.n0 % block) 0).1 whole,
        mul64-eq (slice.n / block) bytes s1,
        mul64-eq (slice.n0 / block) bytes s2,
        mul64-eq k width (omega (arith, far)),
        mul64-eq width slice.d (omega (arith, s3)),
      )
      refl,
  copy_columns-Columns weight before stride width (k * width) slice.d slice.d 0 before (omega arith)
      far s3 ((λ r x l. absurd (omega arith)), (λ x l. refl)),
)
  where
    stride : ℕ
    stride = slice.n / block * bytes

    width : ℕ
    width = slice.n0 / block * bytes

    after : Memory B
    after = copy_columns weight stride width (k * width) 0 slice.d before
