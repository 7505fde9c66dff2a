-- ===== src/Core/Tests.antt =====
-- Runs of the sizes and slices, and the theorems on small weights.
use prefill_opt.Prelude.{
  ℕ, ◌*◌, ◌/◌, ◌%◌, ◌<◌, ◌≡◌, refl, arith, ok, err, u32, mul32, mul64, add64, add32, sub32, some,
}
use prefill_opt.Core.{
  f_32, f_q40, assertion, get_bytes, get_block_size, Size3D, RowMatmulSlice, ColMatmulSlice,
  size2_d, size3_d, slice_row_matmul, slice_col_matmul,
}
use prefill_opt.Core.Rope.{RopeSlice, rope_llama, rope_place, rope_cache, slice_rope}
use prefill_opt.Core.Sizes.{size2_d_too_small}
use prefill_opt.Core.Weights.{
  Memory, memcpy, copy_row, copy_rows, copy_columns, split_row_matmul_weight,
  split_col_matmul_weight,
}
use prefill_opt.Core.Weights.Copy.{Copied}
use prefill_opt.Core.Weights.Row.{split_row_lem}
use prefill_opt.Core.Weights.Column.{Columns, split_col_lem}

-- What a run computes with.
program : Unit {0}
unfolding get_bytes get_block_size size2_d size3_d slice_row_matmul slice_col_matmul mul32 mul64
    add64 add32 sub32 rope_place rope_cache slice_rope memcpy copy_row copy_rows copy_columns
    split_row_matmul_weight split_col_matmul_weight
program = tt

part_block : get_bytes f_q40 100 ≡ err assertion
unfolding program
part_block = refl

abbrev plane : ℕ → ℕ → ℕ → Size3D
plane y x bytes = record {
  float_type = f_q40;
  z = 1;
  y = y;
  x = x;
  length = y * x;
  n_bytes = bytes;
  n_bytes_xy = bytes;
}

abbrev rows : RowMatmulSlice
rows = record {
  float_type = f_q40;
  n_nodes = 2;
  d0 = 2;
  n = 64;
  size = plane 64 4 144;
  slice_size = plane 64 2 72;
}

abbrev columns : ColMatmulSlice
columns = record {
  float_type = f_q40;
  n_nodes = 2;
  n = 64;
  n0 = 32;
  d = 3;
  size = plane 64 3 108;
  slice_size = plane 32 3 54;
}

abbrev wrapped : Size3D
wrapped = record {
  float_type = f_32;
  z = 1;
  y = 65536;
  x = 65537;
  length = 65536;
  n_bytes = 262144;
  n_bytes_xy = 262144;
}

size2_d_too_small_example : (wrapped.length < 65536 * 65537) × (wrapped.n_bytes < 65536 * 65537 * 4)
unfolding program
size2_d_too_small_example =
    size2_d_too_small 65536 65537 {s = wrapped} (omega arith) (omega arith) refl

-- Every byte is its own offset.
abbrev offsets : Memory ℕ
offsets x = x

abbrev zeros : Memory ℕ
zeros x = 0

split_row_lem_example :
    (after : Memory ℕ) × (split_row_matmul_weight offsets rows 1 zeros
      ≡ ok (2 * (64 / 32) * 18 % u32, after))
    × Copied offsets (1 * (2 * (64 / 32) * 18)) (2 * (64 / 32) * 18) zeros after
unfolding program
split_row_lem_example =
    split_row_lem offsets zeros rows 1 32 18 refl refl (omega arith) (omega arith) (omega arith)
      (omega arith)

split_col_lem_example :
    (after : Memory ℕ) × (split_col_matmul_weight offsets columns 1 zeros
      ≡ ok (32 / 32 * 18 * 3 % u32, after))
    × Columns offsets (64 / 32 * 18) (32 / 32 * 18) (1 * (32 / 32 * 18)) 3 zeros after
unfolding program
split_col_lem_example =
    split_col_lem offsets zeros columns 1 32 18 refl refl (omega arith) (omega arith) (omega arith)
      (omega arith) (omega arith)

-- 64 query and 32 key dimensions over two nodes, at the second.
abbrev second_rope : RopeSlice
second_rope = record {
  q_dim0 = 32;
  kv_dim = 32;
  kv_dim0 = 16;
  seq_len = 4;
  head_dim = 8;
  n_kv_heads = 4;
  place = some (record {
    q_dim_start = 32;
    q_dim_end = 64;
    q_shift = 16;
    kv_dim_start = 16;
    slice_dim = 48;
  });
  cache_size = record {
    float_type = f_32;
    z = 1;
    y = 4;
    x = 48;
    length = 192;
    n_bytes = 768;
    n_bytes_xy = 768;
  };
}

rope_run : slice_rope rope_llama 64 32 4 2 4 8 1 ≡ ok second_rope
unfolding program
rope_run = refl
