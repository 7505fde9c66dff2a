-- ===== src/Core.antt =====
-- src/nn/nn-core.hpp, src/nn/nn-core.cpp and the sizes of src/nn/nn-quants.hpp: float types, tensor
-- sizes and the slices of tensors that the nodes hold. A failed assertion and a thrown exception are
-- errors.
pub mod Sizes
pub mod Weights
pub mod Rope
mod Tests
use prefill_opt.Prelude.{
  ℕ, ◌+◌, ◌-◌, ◌*◌, ◌/◌, ◌%◌, Bool, true, false, ◌&&◌, ◌||◌, Result, ok, err, guard, ◌>>=◌, ◌>>◌,
  leb, ◌==◌, if◌then◌else◌, add32, sub32, mul32, mul64,
}

-- `NnFloatType`
pub data FloatType : Type 0 where
  f_unk f_32 f_16 f_q40 f_q80 : FloatType

pub data Error : Type 0 where
  assertion unsupported_float_type unsupported_op_quant unsupported_rope_type : Error

abbrev pub q40_block_size : ℕ
q40_block_size = 32

abbrev pub q80_block_size : ℕ
q80_block_size = 32

-- `sizeof(NnBlockQ40)` and `sizeof(NnBlockQ80)`
abbrev pub q40_block_bytes : ℕ
q40_block_bytes = 2 + q40_block_size / 2

abbrev pub q80_block_bytes : ℕ
q80_block_bytes = 2 + q80_block_size

unfoldable pub get_bytes : FloatType → ℕ → Result Error ℕ
get_bytes f_32 n = ok (mul64 n 4)
get_bytes f_16 n = ok (mul64 n 2)
get_bytes f_q40 n = do
  guard (n % q40_block_size == 0) assertion
  ok (mul64 (n / q40_block_size) q40_block_bytes)
get_bytes f_q80 n = do
  guard (n % q80_block_size == 0) assertion
  ok (mul64 (n / q80_block_size) q80_block_bytes)
get_bytes f_unk n = err unsupported_float_type

unfoldable pub get_block_size : FloatType → Result Error ℕ
get_block_size f_32 = ok 1
get_block_size f_16 = ok 1
get_block_size f_q40 = ok q40_block_size
get_block_size f_q80 = ok q80_block_size
get_block_size f_unk = err unsupported_float_type

-- `NnOpQuantType`
pub data OpQuantType : Type 0 where
  f32_f32_f32 f32_q40_f32 f32_q40_q80 f32_f32_q80 : OpQuantType
  q80_q80_q80 q80_q80_f32 q80_q40_f32 q80_f32_f32 : OpQuantType

unfoldable pub get_op_quant_type : FloatType → FloatType → FloatType → Result Error OpQuantType
get_op_quant_type f_32 f_unk f_32 = ok f32_f32_f32
get_op_quant_type f_32 f_32 f_32 = ok f32_f32_f32
get_op_quant_type f_32 f_q40 f_32 = ok f32_q40_f32
get_op_quant_type f_32 f_unk f_q80 = ok f32_f32_q80
get_op_quant_type f_32 f_32 f_q80 = ok f32_f32_q80
get_op_quant_type f_32 f_q40 f_q80 = ok f32_q40_q80
get_op_quant_type f_q80 f_unk f_32 = ok q80_q80_f32
get_op_quant_type f_q80 f_q80 f_32 = ok q80_q80_f32
get_op_quant_type f_q80 f_32 f_32 = ok q80_f32_f32
get_op_quant_type f_q80 f_q40 f_32 = ok q80_q40_f32
get_op_quant_type f_q80 f_unk f_q80 = ok q80_q80_q80
get_op_quant_type f_q80 f_q80 f_q80 = ok q80_q80_q80
get_op_quant_type _ _ _ = err unsupported_op_quant

-- `NnSize3D`
pub record Size3D : Type 0 where
  pub float_type : FloatType
  pub z : ℕ
  pub y : ℕ
  pub x : ℕ
  pub length : ℕ
  pub n_bytes : ℕ
  pub n_bytes_xy : ℕ

unfoldable pub size0 : Size3D
size0 = record { float_type = f_unk; z = 0; y = 0; x = 0; length = 0; n_bytes = 0; n_bytes_xy = 0 }

-- The products of `NnUint`s wrap before they are widened to `NnSize`.
unfoldable pub size3_d : FloatType → ℕ → ℕ → ℕ → Result Error Size3D
size3_d float_type z y x = do
  let len = mul32 (mul32 z y) x
  let len_xy = mul32 y x
  n_bytes ← get_bytes float_type len
  n_bytes_xy ← get_bytes float_type len_xy
  ok (record {
    float_type = float_type;
    z = z;
    y = y;
    x = x;
    length = len;
    n_bytes = n_bytes;
    n_bytes_xy = n_bytes_xy;
  })

unfoldable pub size2_d : FloatType → ℕ → ℕ → Result Error Size3D
size2_d float_type y x = size3_d float_type 1 y x

unfoldable pub size1_d : FloatType → ℕ → Result Error Size3D
size1_d float_type x = size3_d float_type 1 1 x

-- `NnKvCacheSlice`
pub record KvCacheSlice : Type 0 where
  pub kv_dim0 : ℕ
  pub local_seq_len : ℕ
  pub local_seq_start : ℕ
  pub key_size : Size3D
  pub value_size : Size3D

unfoldable pub slice_kv_cache : ℕ → ℕ → ℕ → ℕ → ℕ → Result Error KvCacheSlice
slice_kv_cache kv_dim seq_len n_nodes sp_size sp_rank = do
  guard (kv_dim % n_nodes == 0) assertion
  guard (leb 1 sp_size) assertion
  guard (seq_len % sp_size == 0) assertion
  let kv_dim0 = kv_dim / n_nodes
  let local_seq_len = seq_len / sp_size
  key_size ← size2_d f_32 seq_len kv_dim0
  value_size ← size2_d f_32 seq_len kv_dim0
  ok (record {
    kv_dim0 = kv_dim0;
    local_seq_len = local_seq_len;
    local_seq_start = mul32 sp_rank local_seq_len;
    key_size = key_size;
    value_size = value_size;
  })

-- `NnRowMatmulSlice`; `float_type` is its field `type`
pub record RowMatmulSlice : Type 0 where
  pub float_type : FloatType
  pub n_nodes : ℕ
  pub d0 : ℕ
  pub n : ℕ
  pub size : Size3D
  pub slice_size : Size3D

unfoldable pub slice_row_matmul : FloatType → ℕ → ℕ → ℕ → Result Error RowMatmulSlice
slice_row_matmul float_type n_nodes n d = do
  guard (d % n_nodes == 0) assertion
  let d0 = d / n_nodes
  size ← size2_d float_type n d
  slice_size ← size2_d float_type n d0
  ok (record {
    float_type = float_type;
    n_nodes = n_nodes;
    d0 = d0;
    n = n;
    size = size;
    slice_size = slice_size;
  })

-- `NnColMatmulSlice`
pub record ColMatmulSlice : Type 0 where
  pub float_type : FloatType
  pub n_nodes : ℕ
  pub n : ℕ
  pub n0 : ℕ
  pub d : ℕ
  pub size : Size3D
  pub slice_size : Size3D

unfoldable pub slice_col_matmul : FloatType → ℕ → ℕ → ℕ → Result Error ColMatmulSlice
slice_col_matmul float_type n_nodes n d = do
  guard (n % n_nodes == 0) assertion
  let n0 = n / n_nodes
  size ← size2_d float_type n d
  slice_size ← size2_d float_type n0 d
  ok (record {
    float_type = float_type;
    n_nodes = n_nodes;
    n = n;
    n0 = n0;
    d = d;
    size = size;
    slice_size = slice_size;
  })

-- `NnMultiHeadAttSlice`
pub record MultiHeadAttSlice : Type 0 where
  pub n_heads : ℕ
  pub n_heads0 : ℕ
  pub att_size : Size3D

unfoldable pub slice_multi_head_att : ℕ → ℕ → ℕ → ℕ → Result Error MultiHeadAttSlice
slice_multi_head_att n_heads seq_len n_nodes n_batches = do
  guard (n_heads % n_nodes == 0) assertion
  let n_heads0 = n_heads / n_nodes
  att_size ← size2_d f_32 n_batches (mul32 n_heads0 seq_len)
  ok (record { n_heads = n_heads; n_heads0 = n_heads0; att_size = att_size })
