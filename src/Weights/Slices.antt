-- ===== src/Weights/Slices.antt =====
-- src/nn/nn-network.cpp, `loadRowMatmulSlices`: what each node gets.
use native.Mathlib.Nat.{mod-lt, mod-eq_of_lt, mul-le-mul_left, mul-le-mul_right}
use prefill_opt.Prelude.{
  ℕ, ◌+◌, ◌*◌, ◌/◌, ◌%◌, ◌<◌, ◌≤◌, ◌≡◌, ◌≢◌, refl, ap, subst, ◌∙◌, ok, true, false, List, [], ◌∷◌,
  lt→ltb, ◌==◌, if◌then◌else◌, some, arith, u32, u64, u32_max, ◌||◌, sym, ok-inj,
}
use prefill_opt.Core.{RowMatmulSlice, get_block_size, get_bytes}
use prefill_opt.Core.Weights.{Memory, split_row_matmul_weight}
use prefill_opt.Core.Weights.Copy.{Copied}
use prefill_opt.Core.Weights.Row.{split_row_lem}
use prefill_opt.Weights.{get_layer_owner_pp_rank}
use prefill_opt.Topology.{Topology, Placement, get_placement}
use prefill_opt.Topology.Ranks.{IsValid, get_placement-eq}
use prefill_opt.Weights.Owner.{node_in_pp_stage_lem}
use prefill_opt.Weights.Deliver.{
  Loader, Delivery, read_memory, in_target, expert_offset, weight_for, load_row_matmul_slices,
  weights_of,
}
use prefill_opt.Weights.Shares.{read_memory-same, Splits, deliver_lem}

-- The bytes of the row slice of tensor-parallel rank `rank`: its block of rows.
abbrev pub row_slice : Memory ℕ → ℕ → ℕ → List ℕ
row_slice weight n_bytes rank = read_memory weight (rank * n_bytes) n_bytes

row_splits :
    (weight : Memory ℕ) (slice : RowMatmulSlice) (block bytes : ℕ)
    → get_block_size slice.float_type ≡ ok block
    → get_bytes slice.float_type block ≡ ok bytes
    → 1 ≤ bytes
    → slice.n % block ≡ 0
    → slice.slice_size.n_bytes ≡ slice.d0 * (slice.n / block) * bytes
    → slice.d0 * slice.n_nodes < u32
    → slice.n_nodes * slice.slice_size.n_bytes < u64
    → Splits
        (split_row_matmul_weight weight slice)
        (weight_for [] 0 0)
        (λ g. true)
        slice.n_nodes
        slice.slice_size.n_bytes
        (row_slice weight slice.slice_size.n_bytes)
row_splits weight slice block bytes eb ey pos whole size rows fits rank temp below =
    (_, after, e, rw (size) (read_memory-same after weight m 0 (rank * m) placed))
  where
    m : ℕ
    m = slice.d0 * (slice.n / block) * bytes

    within : (rank + 1) * m ≤ slice.n_nodes * m
    within = mul-le-mul_right m (omega (arith, below))

    found :
        (after : Memory ℕ) × (split_row_matmul_weight weight slice rank temp ≡ ok (m % u32, after))
        × Copied weight (rank * m) m temp after
    found =
        split_row_lem weight temp slice rank block bytes eb ey pos whole
          (omega (
            arith,
            mul-le-mul_left {m = rank} {n = slice.n_nodes} slice.d0 (omega (arith, below)),
            rows,
          ))
          (omega (arith, within, subst (λ n. slice.n_nodes * n < u64) size fits))

    after : Memory ℕ
    after = found.0

    e : split_row_matmul_weight weight slice rank temp ≡ ok (m % u32, after)
    e = found.1

    placed : (i : ℕ) → i < m → after (0 + i) ≡ weight (rank * m + i)
    placed i l = ap after (omega arith) ∙ found.2 i ∙ rw (lt→ltb i m l) refl

-- What each node gets, by the test of the loader.
by_test :
    (l : Loader) (op_name : List ℕ) (op_index expert : ℕ) (slice : RowMatmulSlice)
    (weight temp : Memory ℕ) (block bytes : ℕ)
    → l.n_nodes ≢ 1
    → 0 < slice.n_nodes
    → get_block_size slice.float_type ≡ ok block
    → get_bytes slice.float_type block ≡ ok bytes
    → 1 ≤ bytes
    → slice.n % block ≡ 0
    → slice.slice_size.n_bytes ≡ slice.d0 * (slice.n / block) * bytes
    → slice.d0 * slice.n_nodes < u32
    → slice.n_nodes * slice.slice_size.n_bytes < u64
    → (ds : List Delivery) × (load_row_matmul_slices l op_name op_index expert slice weight temp
        ≡ ok (slice.size.n_bytes, ds))
      × ((g : ℕ)
          → g < l.n_nodes
          → weights_of g ds ≡ (
              if in_target
                (get_layer_owner_pp_rank l.layer_offsets op_index l.n_layers l.pp_size
                  (some op_name))
                slice.n_nodes
                g
              then weight_for op_name op_index
                  (expert_offset expert slice.slice_size.n_bytes)
                  (row_slice weight slice.slice_size.n_bytes (g % slice.n_nodes))
                ∷ []
              else []))
unfolding load_row_matmul_slices
by_test l op_name op_index expert slice weight temp block bytes many pos eb ey by whole size rows
      fits =
    let n_bytes = slice.slice_size.n_bytes in
    let (ds, e, (below, within)) =
      deliver_lem (split_row_matmul_weight weight slice)
        (weight_for op_name op_index (expert_offset expert n_bytes))
        (in_target
          (get_layer_owner_pp_rank l.layer_offsets op_index l.n_layers l.pp_size (some op_name))
          slice.n_nodes)
        slice.n_nodes n_bytes (row_slice weight n_bytes)
        (row_splits weight slice block bytes eb ey by whole size rows fits) pos l.n_nodes 0 temp in
    (ds, rw (==-false l.n_nodes 1 many, e) refl, λ g m. within g (omega arith) (omega (arith, m)))
  where
    ==-false : (a b : ℕ) → a ≢ b → (a == b) ≡ false
    ==-false a b ne = ground arith

-- A node's index gives its tensor-parallel rank, where there is no sequence parallelism.
tp_rank-eq :
    (t : Topology) (g : ℕ) {p : Placement}
    → IsValid t
    → g < t.n_nodes
    → t.sp_size ≡ 1
    → get_placement t g ≡ ok p
    → g % t.tp_size ≡ p.tp_rank
tp_rank-eq t g {p} v in_range one e = sym (
    ap (λ q. q.tp_rank) (ok-inj (sym e ∙ get_placement-eq t v g in_range))
    ∙ ap (λ k. g % k % t.tp_size) lanes
    ∙ mod-eq_of_lt (mod-lt g v.tp_pos))
  where
    lanes : t.sp_size * t.tp_size ≡ t.tp_size
    lanes = rw one (omega arith)

-- `loadRowMatmulSlices` on the nodes of a topology without sequence parallelism, of several nodes, with a
-- slice for each tensor-parallel rank, whole blocks, sizes that fit and a slice whose size is that of its
-- rows, succeeds and returns the size of the whole weight. Every node whose place is in the owner's stage,
-- or every node if there is no owner, gets one weight, with exactly the bytes of its tensor-parallel rank's
-- block of rows, whatever the nodes before it left in the buffer; every other node gets nothing.
pub load_row_lem :
    (t : Topology) (l : Loader) (op_name : List ℕ) (op_index expert : ℕ) (slice : RowMatmulSlice)
    (weight temp : Memory ℕ) (block bytes : ℕ)
    → IsValid t
    → t.sp_size ≡ 1
    → l.n_nodes ≡ t.n_nodes
    → slice.n_nodes ≡ t.tp_size
    → l.n_nodes ≢ 1
    → get_block_size slice.float_type ≡ ok block
    → get_bytes slice.float_type block ≡ ok bytes
    → 1 ≤ bytes
    → slice.n % block ≡ 0
    → slice.slice_size.n_bytes ≡ slice.d0 * (slice.n / block) * bytes
    → slice.d0 * slice.n_nodes < u32
    → slice.n_nodes * slice.slice_size.n_bytes < u64
    → (ds : List Delivery) × (load_row_matmul_slices l op_name op_index expert slice weight temp
        ≡ ok (slice.size.n_bytes, ds))
      × ((g : ℕ) (p : Placement)
          → get_placement t g ≡ ok p
          → g < t.n_nodes
          → let owner =
              get_layer_owner_pp_rank l.layer_offsets op_index l.n_layers l.pp_size
                (some op_name) in
            weights_of g ds ≡ (
              if (owner == u32_max) || (p.pp_rank == owner)
              then weight_for op_name op_index
                  (expert_offset expert slice.slice_size.n_bytes)
                  (row_slice weight slice.slice_size.n_bytes p.tp_rank)
                ∷ []
              else []))
unfolding in_target
load_row_lem t l op_name op_index expert slice weight temp block bytes v one nodes ranks many eb ey
      by whole size rows fits =
    let (ds, e, each) =
      by_test l op_name op_index expert slice weight temp block bytes many
        (omega (arith, ranks, v.tp_pos)) eb ey by whole size rows fits in
    (
      ds,
      e,
      λ g p placed inside.
          let owner =
            get_layer_owner_pp_rank l.layer_offsets op_index l.n_layers l.pp_size (some op_name) in
          each g (omega (arith, nodes, inside))
          ∙ rw
              (
                ranks,
                node_in_pp_stage_lem t g owner v inside one placed,
                tp_rank-eq t g v inside one placed,
              )
              refl,
    )
