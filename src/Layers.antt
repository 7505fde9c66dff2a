-- ===== src/Layers.antt =====
-- src/llm.cpp, the division of the layers among the pipeline stages: `buildSubBlockOffsets`,
-- `buildLayerStartOffsets`, and what `buildLlmNet` makes of them. A layer has two sub-blocks,
-- attention and feed-forward. Of an operator of the graph only the name is kept, and only where it has a
-- weight. The counts of the stages are empty where the source has a null pointer.
pub mod Ranges
pub mod Offsets
pub mod Owners
pub mod Names
mod Tests
use prefill_opt.Prelude.{
  ℕ, zero, suc, ◌/◌, ◌%◌, Bool, true, false, not, ◌&&◌, if◌then◌else◌, ltb, ◌==◌, add32, mul32,
  Result, ok, err, guard, ◌>>=◌, ◌>>◌, List, [], ◌∷◌, length, map, get_or, ◌++◌, leb, codes,
}

-- The exceptions of the two functions
pub data LayerError : Type 0 where
  size_mismatch empty_stage sum_mismatch : LayerError

-- The loop over the counts of the stages, from the sum so far; the last offset is the sum of all.
unfoldable pub add_counts : ℕ → List ℕ → Result LayerError (List ℕ)
add_counts sum [] = ok (sum ∷ [])
add_counts sum (count ∷ counts) = do
  guard (not (count == 0)) empty_stage
  offsets ← add_counts (add32 sum count) counts
  ok (sum ∷ offsets)

-- The branch in which counts are given; they must add up to `n`.
unfoldable pub given_offsets : ℕ → ℕ → List ℕ → Result LayerError (List ℕ)
given_offsets n pp_size counts = do
  guard (length counts == pp_size) size_mismatch
  offsets ← add_counts 0 counts
  guard (get_or offsets pp_size 0 == n) sum_mismatch
  ok offsets

-- The even division of sub-blocks: the first `rem` stages have one more. The first number is that of
-- the stages that are left.
unfoldable pub even_from : ℕ → ℕ → ℕ → ℕ → ℕ → List ℕ
even_from zero per rem i acc = acc ∷ []
even_from (suc left) per rem i acc =
    acc ∷ even_from left per rem (suc i) (add32 acc (add32 per (if ltb i rem then 1 else 0)))

-- The even division of layers: the last stage has what is left.
unfoldable pub starts_from : ℕ → ℕ → ℕ → ℕ → List ℕ
starts_from zero per i n_layers = n_layers ∷ []
starts_from (suc left) per i n_layers = mul32 i per ∷ starts_from left per (suc i) n_layers

unfoldable pub build_sub_block_offsets : ℕ → ℕ → List ℕ → Result LayerError (List ℕ)
build_sub_block_offsets n_layers pp_size [] =
    let n_sub = mul32 n_layers 2 in ok (even_from pp_size (n_sub / pp_size) (n_sub % pp_size) 0 0)
build_sub_block_offsets n_layers pp_size (count ∷ counts) =
    given_offsets (mul32 n_layers 2) pp_size (count ∷ counts)

unfoldable pub build_layer_start_offsets : ℕ → ℕ → List ℕ → Result LayerError (List ℕ)
build_layer_start_offsets n_layers pp_size [] =
    ok (starts_from pp_size (n_layers / pp_size) 0 n_layers)
build_layer_start_offsets n_layers pp_size (count ∷ counts) =
    given_offsets n_layers pp_size (count ∷ counts)

unfoldable pub sum_from : ℕ → List ℕ → ℕ
sum_from sum [] = sum
sum_from sum (count ∷ counts) = sum_from (add32 sum count) counts

-- `subMode`: the counts are those of sub-blocks.
unfoldable pub is_sub_mode : ℕ → ℕ → List ℕ → Bool
is_sub_mode n_layers pp_size [] = false
is_sub_mode n_layers pp_size (count ∷ counts) =
    (length (count ∷ counts) == pp_size) && (sum_from 0 (count ∷ counts) == mul32 n_layers 2)

-- `subMode`, and `subOffsets` or `layerOffsets`
pub record Split : Type 0 where
  pub sub_mode : Bool
  pub offsets : List ℕ

unfoldable pub split_layers : ℕ → ℕ → List ℕ → Result LayerError Split
split_layers n_layers pp_size counts =
    if is_sub_mode n_layers pp_size counts
    then build_sub_block_offsets n_layers pp_size counts
      >>= (λ offsets. ok (record { sub_mode = true; offsets = offsets }))
    else build_layer_start_offsets n_layers pp_size counts
      >>= (λ offsets. ok (record { sub_mode = false; offsets = offsets }))

-- `subForLoader`
unfoldable pub sub_for_loader : Split → List ℕ
sub_for_loader split =
    if split.sub_mode then split.offsets else map (λ offset. mul32 offset 2) split.offsets

-- `subStart` of the stage `pp_rank`, and `subEnd` of the stage before
unfoldable pub sub_start : Split → ℕ → ℕ
sub_start split pp_rank =
    if split.sub_mode
    then get_or split.offsets pp_rank 0
    else mul32 (get_or split.offsets pp_rank 0) 2

-- `LlmArchType`
pub data ArchType : Type 0 where
  llama qwen3 qwen3_moe : ArchType

-- The operators of `att` that have a weight
unfoldable pub att_weights : ArchType → List (List ℕ)
att_weights arch =
    codes "block_norm_0"
    ∷ codes "block_matmul_q"
    ∷ codes "block_matmul_k"
    ∷ codes "block_matmul_v"
    ∷ (norms arch ++ (codes "block_matmul_wo" ∷ []))
  where
    norms : ArchType → List (List ℕ)
    norms llama = []
    norms qwen3 = codes "block_norm_q" ∷ codes "block_norm_k" ∷ []
    norms qwen3_moe = codes "block_norm_q" ∷ codes "block_norm_k" ∷ []

-- The operators of `ff` that have a weight
unfoldable pub ff_weights : ArchType → List (List ℕ)
ff_weights arch =
    codes "block_norm_1"
    ∷ (gate arch
        ++ (codes "block_matmul_w1" ∷ codes "block_matmul_w3" ∷ codes "block_matmul_w2" ∷ []))
  where
    gate : ArchType → List (List ℕ)
    gate llama = []
    gate qwen3 = []
    gate qwen3_moe = codes "block_moe_gate" ∷ []

-- `ownAtt` and `ownFf`, for a sub-block
unfoldable pub owns : Split → ℕ → ℕ → Bool
owns split pp_rank sub =
    leb (sub_start split pp_rank) sub && ltb sub (sub_start split (suc pp_rank))

-- The loop of the graph from `layerStart` to `layerEnd`: whether it comes to a layer.
unfoldable pub has_layer : Split → ℕ → ℕ → Bool
has_layer split pp_rank layer =
    leb (sub_start split pp_rank / 2) layer
    && ltb layer (add32 (sub_start split (suc pp_rank)) 1 / 2)

-- The operators with a weight that the graph of a stage has for a layer
unfoldable pub stage_weights : ArchType → Split → ℕ → ℕ → List (List ℕ)
stage_weights arch split pp_rank layer =
    let sub_att = mul32 layer 2 in
    let sub_ff = add32 sub_att 1 in
    if has_layer split pp_rank layer
    then (if owns split pp_rank sub_att then att_weights arch else [])
      ++ (if owns split pp_rank sub_ff then ff_weights arch else [])
    else []
