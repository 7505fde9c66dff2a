-- ===== src/Weights.antt =====
-- src/nn/nn-network.cpp, the distribution of the weights: which stage owns a layer, what the root
-- sends, and what a worker loads. src/nn/nn-executor.cpp, `NnExecutor::loadWeight`.
pub mod Owner
pub mod Deliver
pub mod Receive
pub mod RoundTrip
pub mod Termination
pub mod Shares
pub mod Slices
mod Tests
use prefill_opt.Prelude.{
  ℕ, zero, suc, ◌+◌, ◌-◌, ◌*◌, ◌/◌, ◌%◌, Result, ok, err, ◌>>=◌, Bool, true, false, ◌&&◌, ◌||◌, not,
  Option, none, some, List, [], ◌∷◌, ◌++◌, length, ltb, leb, ◌==◌, if◌then◌else◌, u32, u32_max,
  mul64, add32, mul32, starts_with, contains,
}
use prefill_opt.Core.{Error, RowMatmulSlice, ColMatmulSlice, Size3D}
use prefill_opt.Core.Weights.{Memory, split_row_matmul_weight, split_col_matmul_weight}
use prefill_opt.Wire.Codec.{Writer, write32, write64, write_string}
use prefill_opt.Wire.Config.Node.{OpConfig, SegmentConfig}

-- "matmul_w1", "matmul_w2", "matmul_w3", "moe" and "norm_1"
abbrev pub matmul_w : ℕ → List ℕ
matmul_w digit = 109 ∷ 97 ∷ 116 ∷ 109 ∷ 117 ∷ 108 ∷ 95 ∷ 119 ∷ (48 + digit) ∷ []

abbrev pub moe : List ℕ
moe = 109 ∷ 111 ∷ 101 ∷ []

abbrev pub norm_1 : List ℕ
norm_1 = 110 ∷ 111 ∷ 114 ∷ 109 ∷ 95 ∷ 49 ∷ []

-- The sublayer of an operator: 0 for attention, 1 for the feed-forward part. `none` is `nullptr`.
unfoldable pub sub_part_of_op : Option (List ℕ) → ℕ
sub_part_of_op none = 0
sub_part_of_op (some name) =
    if contains (matmul_w 1) name
      || contains (matmul_w 2) name
      || contains (matmul_w 3) name
      || contains moe name
      || contains norm_1 name
    then 1
    else 0

-- The loop over the stages from `r` on, with the offsets from the `r`-th on
unfoldable pub owner_from : ℕ → ℕ → ℕ → List ℕ → ℕ
owner_from last sub r [] = last
owner_from last sub r (from ∷ []) = last
owner_from last sub r (from ∷ to ∷ offsets) =
    let later = owner_from last sub (r + 1) (to ∷ offsets) in
    if leb from sub && ltb sub to then r else later

-- `offsets` is `gPpLayerOffsets`. `u32_max` stands for every stage.
unfoldable pub get_layer_owner_pp_rank : List ℕ → ℕ → ℕ → ℕ → Option (List ℕ) → ℕ
get_layer_owner_pp_rank offsets layer_index n_layers pp_size op_name =
    let sub = add32 (mul32 layer_index 2) (sub_part_of_op op_name) in
    let layers_per_stage = n_layers / pp_size in
    let pp_rank = layer_index / layers_per_stage in
    if leb pp_size 1 || n_layers == 0
    then u32_max
    else if length offsets == pp_size + 1
    then owner_from (pp_size - 1) sub 0 offsets
    else if layers_per_stage == 0
    then u32_max
    else if leb pp_size pp_rank
    then pp_size - 1
    else pp_rank

unfoldable pub node_in_pp_stage : ℕ → ℕ → ℕ → Bool
node_in_pp_stage node_index target_pp_rank tp_size = node_index / tp_size == target_pp_rank

-- What the executor and a worker are told: `nBytes` is the length of `weight_bytes`.
pub record Weight : Type 0 where
  pub weight_name : List ℕ
  pub op_index : ℕ
  pub offset : ℕ
  pub weight_bytes : List ℕ

-- `writeWeight`
unfoldable pub write_weight : Weight → Writer
write_weight w out = write_string w.weight_name (
    write32 w.op_index (write64 w.offset (write64 (length w.weight_bytes) (w.weight_bytes ++ out))))

-- A call of `loadWeight` of the device: operator `op` of segment `segment`.
pub record Load : Type 0 where
  pub segment : ℕ
  pub op : ℕ
  pub load_offset : ℕ
  pub loaded : List ℕ

-- `strcmp(a, b) == 0`
unfoldable pub same : List ℕ → List ℕ → Bool
same [] [] = true
same [] (d ∷ b) = false
same (c ∷ a) [] = false
same (c ∷ a) (d ∷ b) = (c == d) && same a b

unfoldable pub find_op : List ℕ → ℕ → ℕ → List OpConfig → Option ℕ
find_op name index i [] = none
find_op name index i (op ∷ ops) =
    let rest = find_op name index (i + 1) ops in
    if op.index == index && same op.op_name name then some i else rest

-- `NnExecutor::loadWeight`: the first operator of the first segment that has the name and the index.
-- `none` is the exception "Cannot locate op by name".
unfoldable pub load_from : Weight → ℕ → List SegmentConfig → Option Load
load_from w s [] = none
load_from w s (segment ∷ segments) = elim (find_op w.weight_name w.op_index 0 segment.ops) [
  | some i ↦ some record { segment = s; op = i; load_offset = w.offset; loaded = w.weight_bytes }
  | none ↦ load_from w (s + 1) segments
]

unfoldable pub load_weight : List SegmentConfig → Weight → Option Load
load_weight segments w = load_from w 0 segments

-- `try { loadWeight } catch`: a weight that this node does not have is passed over.
unfoldable pub try_load : List SegmentConfig → Weight → List Load
try_load segments w = elim (load_weight segments w) [ some load ↦ load ∷ [] | none ↦ [] ]
