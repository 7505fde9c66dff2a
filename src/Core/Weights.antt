-- ===== src/Core/Weights.antt =====
-- `splitRowMatmulWeight` and `splitColMatmulWeight` of src/nn/nn-core.cpp: the bytes of a weight that
-- a node takes. A buffer is a function from offsets to bytes.
pub mod Copy
pub mod Row
pub mod Column
use prefill_opt.Prelude.{
  ℕ, zero, suc, ◌+◌, ◌-◌, ◌/◌, ◌%◌, Result, ok, err, guard, ◌>>=◌, ◌>>◌, ltb, leb, ◌==◌, ◌&&◌,
  if◌then◌else◌, mul32, mul64, add64, u32,
}
use prefill_opt.Core.{
  FloatType, Error, assertion, get_block_size, get_bytes, RowMatmulSlice, ColMatmulSlice,
}

abbrev pub Memory : Type 0 → Type 0
Memory B = ℕ → B

-- `memcpy(dst + dst_offset, src + src_offset, n)`
unfoldable pub memcpy {ℓ} : {B : Type ℓ} → ℕ → ℕ → ℕ → (ℕ → B) → (ℕ → B) → ℕ → B
memcpy dst_offset src_offset n src dst x =
    if leb dst_offset x && ltb x (dst_offset + n)
    then src (src_offset + (x - dst_offset))
    else dst x

module _ {B : Type 0} (weight : Memory B) where
  -- `for (j = 0; j < blocks; j++)` in row `d`, with the blocks still to do in `rest`
  unfoldable pub copy_row : ℕ → ℕ → ℕ → ℕ → ℕ → ℕ → Memory B → Memory B
  copy_row offset batch_bytes n d j zero weight0 = weight0
  copy_row offset batch_bytes n d j (suc rest) weight0 =
      let o = mul64 (add64 (mul64 d n) j) batch_bytes in
      copy_row offset batch_bytes n d (j + 1) rest
        (memcpy o (add64 offset o) batch_bytes weight weight0)

  -- `for (d = 0; d < rows; d++)`, with the rows still to do in `rest`
  unfoldable pub copy_rows : ℕ → ℕ → ℕ → ℕ → ℕ → Memory B → Memory B
  copy_rows offset batch_bytes n d zero weight0 = weight0
  copy_rows offset batch_bytes n d (suc rest) weight0 =
      copy_rows offset batch_bytes n (d + 1) rest (copy_row offset batch_bytes n d 0 n weight0)

  -- The copied bytes, as an `NnUint`, and the node's weight. `copiedBytes` grows by the same amount in
  -- every step, which makes it a product modulo `2 ^ 64`.
  unfoldable pub split_row_matmul_weight :
      RowMatmulSlice → ℕ → Memory B → Result Error (ℕ × Memory B)
  split_row_matmul_weight slice node_index weight0 = do
    block_size ← get_block_size slice.float_type
    batch_bytes ← get_bytes slice.float_type block_size
    guard (slice.n % block_size == 0) assertion
    let n = slice.n / block_size
    let offset = mul64 (mul64 (mul32 slice.d0 node_index) n) batch_bytes
    ok (
      mul64 (mul64 slice.d0 n) batch_bytes % u32,
      copy_rows offset batch_bytes n 0 slice.d0 weight0,
    )

  unfoldable pub copy_columns : ℕ → ℕ → ℕ → ℕ → ℕ → Memory B → Memory B
  copy_columns row_bytes row0_bytes row_offset_bytes d zero weight0 = weight0
  copy_columns row_bytes row0_bytes row_offset_bytes d (suc rest) weight0 =
      copy_columns row_bytes row0_bytes row_offset_bytes (d + 1) rest (
        memcpy (mul64 row0_bytes d) (add64 (mul64 row_bytes d) row_offset_bytes) row0_bytes weight
          weight0)

  unfoldable pub split_col_matmul_weight :
      ColMatmulSlice → ℕ → Memory B → Result Error (ℕ × Memory B)
  split_col_matmul_weight slice node_index weight0 = do
    block_size ← get_block_size slice.float_type
    batch_bytes ← get_bytes slice.float_type block_size
    guard (slice.n0 % block_size == 0) assertion
    let n = slice.n / block_size
    let row_bytes = mul64 n batch_bytes
    let row0_bytes = mul64 (slice.n0 / block_size) batch_bytes
    let row_offset_bytes = mul64 node_index row0_bytes
    ok (
      mul64 row0_bytes slice.d % u32,
      copy_columns row_bytes row0_bytes row_offset_bytes 0 slice.d weight0,
    )
