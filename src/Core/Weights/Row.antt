-- ===== src/Core/Weights/Row.antt =====
-- A row-split weight: node `k` gets the `k`-th block of rows.
use native.Mathlib.Nat.{mul-le-mul_left, mul-le-mul_right}
use prefill_opt.Prelude.{
  ℕ, zero, suc, ◌+◌, ◌*◌, ◌/◌, ◌%◌, ◌≤◌, ◌<◌, ◌≡◌, refl, arith, ok, u32, u64, mul32, mul64,
  mul32-eq, mul64-eq, add64-eq, ==_iff, subst, le-mul_pos,
}
use prefill_opt.Core.{RowMatmulSlice, get_block_size, get_bytes}
use prefill_opt.Core.Weights.{Memory, memcpy, copy_row, copy_rows, split_row_matmul_weight}
use prefill_opt.Core.Weights.Copy.{Copied, memcpy-Copied}

module _ {B : Type 0} (weight before : Memory B) (offset bytes n : ℕ) where
  copy_row-Copied :
      (rest d j : ℕ) (now : Memory B)
      → j + rest ≡ n
      → offset + (d * n + n) * bytes < u64
      → d * n + n < u64
      → Copied weight offset ((d * n + j) * bytes) before now
      → Copied weight offset
          ((d * n + n) * bytes)
          before
          (copy_row weight offset bytes n d j rest now)
  unfolding copy_row
  copy_row-Copied zero d j now e fits small h =
      let e' : j ≡ n = omega arith in
      subst (λ k. Copied weight offset ((d * n + k) * bytes) before now) e' h
  copy_row-Copied (suc rest) d j now e fits small h =
      rw
        (
          mul64-eq d n (omega (arith, small)),
          add64-eq (d * n) j (omega (arith, small, e)),
          mul64-eq (d * n + j) bytes (omega (arith, fits, below)),
          add64-eq offset ((d * n + j) * bytes) (omega (arith, fits, below)),
        )
        (copy_row-Copied rest d (j + 1) next (omega (arith, e)) fits small (
          subst (λ m. Copied weight offset m before next) longer
            (memcpy-Copied weight before now offset ((d * n + j) * bytes) bytes h)))
    where
      next : Memory B
      next = memcpy ((d * n + j) * bytes) (offset + (d * n + j) * bytes) bytes weight now

      below : (d * n + j) * bytes ≤ (d * n + n) * bytes
      below = mul-le-mul_right bytes (omega (arith, e))

      longer : (d * n + j) * bytes + bytes ≡ (d * n + (j + 1)) * bytes
      longer = omega arith

module _ {B : Type 0} (weight before : Memory B) (offset bytes n d0 : ℕ) where
  copy_rows-Copied :
      (rest d : ℕ) (now : Memory B)
      → d + rest ≡ d0
      → offset + d0 * n * bytes < u64
      → d0 * n < u64
      → Copied weight offset (d * n * bytes) before now
      → Copied weight offset (d0 * n * bytes) before (copy_rows weight offset bytes n d rest now)
  unfolding copy_rows
  copy_rows-Copied zero d now e fits small h =
      let e' : d ≡ d0 = omega arith in
      subst (λ k. Copied weight offset (k * n * bytes) before now) e' h
  copy_rows-Copied (suc rest) d now e fits small h =
      copy_rows-Copied rest (d + 1) next (omega (arith, e)) fits small (
        subst (λ m. Copied weight offset m before next) longer
          (copy_row-Copied weight before offset bytes n n d 0 now (omega arith)
            (omega (arith, fits, bytes_below)) (omega (arith, small, rows_below))
            (subst (λ m. Copied weight offset m before now) same h)))
    where
      next : Memory B
      next = copy_row weight offset bytes n d 0 n now

      rows_below : (d + 1) * n ≤ d0 * n
      rows_below = mul-le-mul_right n (omega (arith, e))

      bytes_below : (d + 1) * n * bytes ≤ d0 * n * bytes
      bytes_below = mul-le-mul_right bytes rows_below

      same : d * n * bytes ≡ (d * n + 0) * bytes
      same = omega arith

      longer : (d * n + n) * bytes ≡ (d + 1) * n * bytes
      longer = omega arith

-- `splitRowMatmulWeight`, for a row of `blocks` whole blocks of `bytes` bytes and with every offset
-- in 64 bits: node `k` gets bytes `[k * m, (k + 1) * m)` of the weight, in order, at the start of its
-- buffer, where `m` is `d0 * blocks * bytes`; the rest of the buffer is as before. The returned
-- count is `m` modulo `2 ^ 32`.
pub split_row_lem :
    {B : Type 0} (weight before : Memory B) (slice : RowMatmulSlice) (k block bytes : ℕ)
    → get_block_size slice.float_type ≡ ok block
    → get_bytes slice.float_type block ≡ ok bytes
    → 1 ≤ bytes
    → slice.n % block ≡ 0
    → slice.d0 * k < u32
    → (k + 1) * (slice.d0 * (slice.n / block) * bytes) < u64
    → (after : Memory B) × (split_row_matmul_weight weight slice k before
        ≡ ok (slice.d0 * (slice.n / block) * bytes % u32, after))
      × Copied weight
          (k * (slice.d0 * (slice.n / block) * bytes))
          (slice.d0 * (slice.n / block) * bytes)
          before
          after
unfolding split_row_matmul_weight
split_row_lem {B} weight before slice k block bytes eb ey pos whole small fits =
    (after, rw (eb, ey, (==_iff (slice.n % block) 0).1 whole) (rw (counted, placed) refl), copied)
  where
    blocks : ℕ
    blocks = slice.n / block

    m : ℕ
    m = slice.d0 * blocks * bytes

    rows : slice.d0 * blocks ≤ m
    rows = le-mul_pos _ bytes pos

    after : Memory B
    after = copy_rows weight (k * m) bytes blocks 0 slice.d0 before

    counted : mul64 (mul64 slice.d0 blocks) bytes ≡ m
    counted =
        rw (mul64-eq slice.d0 blocks (omega (arith, rows, fits)))
          (mul64-eq _ bytes (omega (arith, fits)))

    k_rows : slice.d0 * k * blocks ≤ k * m
    k_rows = let r : k * (slice.d0 * blocks) ≤ k * m = mul-le-mul_left k rows in omega (arith, r)

    placed : mul64 (mul64 (mul32 slice.d0 k) blocks) bytes ≡ k * m
    placed =
        rw
          (
            mul32-eq slice.d0 k small,
            mul64-eq (slice.d0 * k) blocks (omega (arith, k_rows, fits)),
            mul64-eq (slice.d0 * k * blocks) bytes (omega (arith, fits)),
          )
          (omega arith)

    copied : Copied weight (k * m) m before after
    copied =
        copy_rows-Copied weight before (k * m) bytes blocks slice.d0 slice.d0 0 before (omega arith)
          (omega (arith, fits)) (omega (arith, rows, fits)) (λ x. ground arith)
