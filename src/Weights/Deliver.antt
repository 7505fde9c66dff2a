-- ===== src/Weights/Deliver.antt =====
-- src/nn/nn-network.cpp, `NnRootWeightLoader`.
use prefill_opt.Prelude.{
  ℕ, zero, suc, ◌+◌, ◌-◌, ◌%◌, Result, ok, ◌>>=◌, Bool, ◌||◌, some, List, [], ◌∷◌, ◌==◌,
  if◌then◌else◌, u32, u32_max, mul64,
}
use prefill_opt.Core.{Error, RowMatmulSlice, ColMatmulSlice}
use prefill_opt.Core.Weights.{Memory, split_row_matmul_weight, split_col_matmul_weight}
use prefill_opt.Wire.Codec.{Writer, write32, write_all}
use prefill_opt.Weights.{Weight, write_weight, get_layer_owner_pp_rank, node_in_pp_stage}

-- `NnRootWeightLoader`, with `gPpLayerOffsets`
pub record Loader : Type 0 where
  pub n_nodes : ℕ
  pub pp_size : ℕ
  pub n_layers : ℕ
  pub layer_offsets : List ℕ

-- The first `n` bytes from `x` on.
unfoldable pub read_memory : Memory ℕ → ℕ → ℕ → List ℕ
read_memory memory x zero = []
read_memory memory x (suc n) = memory x ∷ read_memory memory (x + 1) n

-- What goes to which node: to the executor for node 0, else to the socket of the node.
abbrev pub Delivery : Type 0
Delivery = ℕ × Weight

abbrev pub weight_for : List ℕ → ℕ → ℕ → List ℕ → Weight
weight_for weight_name op_index offset bytes = record {
  weight_name = weight_name;
  op_index = op_index;
  offset = offset;
  weight_bytes = bytes;
}

module _ (split : ℕ → Memory ℕ → Result Error (ℕ × Memory ℕ)) (weight_of : List ℕ → Weight)
    (receives : ℕ → Bool) (tp_size n_bytes : ℕ) where
  -- The loop over `k` nodes from `node` on, with the buffer `temp` that every node reuses
  unfoldable pub deliver : ℕ → ℕ → Memory ℕ → Result Error (List Delivery)
  deliver zero node temp = ok []
  deliver (suc k) node temp =
      let rest = deliver k (node + 1) in
      let slice = (do
        (copied, filled) ← split (node % tp_size) temp
        more ← rest filled
        ok ((node, weight_of (read_memory filled 0 n_bytes)) ∷ more)) in
      if receives node then slice else rest temp

-- `loadAll` on `k` nodes from `node` on
unfoldable pub deliver_all : Weight → ℕ → ℕ → List Delivery
deliver_all w zero node = []
deliver_all w (suc k) node = (node, w) ∷ deliver_all w k (node + 1)

unfoldable pub load_all : Loader → List ℕ → ℕ → ℕ → Memory ℕ → ℕ × List Delivery
load_all l op_name op_index n_bytes weight =
    let w : Weight = weight_for op_name op_index 0 (read_memory weight 0 n_bytes) in
    (n_bytes, (0, w) ∷ deliver_all w (l.n_nodes - 1) 1)

unfoldable pub load_root : List ℕ → ℕ → ℕ → Memory ℕ → ℕ × List Delivery
load_root op_name op_index n_bytes weight =
    let w : Weight = weight_for op_name op_index 0 (read_memory weight 0 n_bytes) in
    (n_bytes, (0, w) ∷ [])

-- `continue` unless every stage or the node's own is the target
unfoldable pub in_target : ℕ → ℕ → ℕ → Bool
in_target owner tp_size node = owner == u32_max || node_in_pp_stage node owner tp_size

-- `const NnUint offset`, which keeps 32 bits of the product
unfoldable pub expert_offset : ℕ → ℕ → ℕ
expert_offset expert_index n_bytes = mul64 expert_index n_bytes % u32

module _ (l : Loader) (op_name : List ℕ) (op_index expert_index : ℕ) where
  unfoldable pub load_row_matmul_slices :
      RowMatmulSlice → Memory ℕ → Memory ℕ → Result Error (ℕ × List Delivery)
  load_row_matmul_slices slice weight temp =
      let n_bytes = slice.slice_size.n_bytes in
      let weight_of : List ℕ → Weight =
        weight_for op_name op_index (expert_offset expert_index n_bytes) in
      let owner =
        get_layer_owner_pp_rank l.layer_offsets op_index l.n_layers l.pp_size (some op_name) in
      if l.n_nodes == 1
      then ok (slice.size.n_bytes, (0, weight_of (read_memory weight 0 n_bytes)) ∷ [])
      else do
        deliveries ←
            deliver (split_row_matmul_weight weight slice) weight_of (in_target owner slice.n_nodes)
              slice.n_nodes n_bytes l.n_nodes 0 temp
        ok (slice.size.n_bytes, deliveries)

  unfoldable pub load_col_matmul_slices :
      ℕ → ColMatmulSlice → Memory ℕ → Memory ℕ → Result Error (ℕ × List Delivery)
  load_col_matmul_slices override_pp_rank slice weight temp =
      let n_bytes = slice.slice_size.n_bytes in
      let weight_of : List ℕ → Weight =
        weight_for op_name op_index (expert_offset expert_index n_bytes) in
      let layer_owner =
        get_layer_owner_pp_rank l.layer_offsets op_index l.n_layers l.pp_size (some op_name) in
      let owner = if override_pp_rank == u32_max then layer_owner else override_pp_rank in
      if l.n_nodes == 1
      then ok (slice.size.n_bytes, (0, weight_of (read_memory weight 0 n_bytes)) ∷ [])
      else do
        deliveries ←
            deliver (split_col_matmul_weight weight slice) weight_of (in_target owner slice.n_nodes)
              slice.n_nodes n_bytes l.n_nodes 0 temp
        ok (slice.size.n_bytes, deliveries)

-- What one node gets, in order.
unfoldable pub weights_of : ℕ → List Delivery → List Weight
weights_of g [] = []
weights_of g ((node, w) ∷ deliveries) =
    let rest = weights_of g deliveries in if node == g then w ∷ rest else rest

-- What the socket of a worker carries: its weights, and the zero of `finish`.
unfoldable pub weight_stream : List Weight → Writer
weight_stream ws out = write_all write_weight ws (write32 0 out)
