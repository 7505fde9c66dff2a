-- ===== src/Weights/Tests.antt =====
-- Four nodes in two stages of two, four layers, and one operator.
use prefill_opt.Prelude.{
  ◌||◌, u32_max, ℕ, ◌+◌, ◌*◌, ◌^◌, ◌<◌, ◌≤◌, ◌≡◌, ◌≢◌, refl, arith, List, [], ◌∷◌, length, some, ok,
  err, true, if◌then◌else◌, mul64, ◌==◌,
}
use prefill_opt.Core.{f_32, get_block_size, get_bytes, RowMatmulSlice, Size3D}
use prefill_opt.Core.Weights.{Memory}
use prefill_opt.Topology.{Topology, Placement, get_placement}
use prefill_opt.Topology.Ranks.{digits, get_placement-eq}
use prefill_opt.Wire.Codec.{buffer_overflow, out_of_fuel, write32, write64}
use prefill_opt.Wire.Config.Node.{OpConfig, SegmentConfig}
use prefill_opt.Weights.{
  Weight, Load, get_layer_owner_pp_rank, node_in_pp_stage, matmul_w, same, find_op, load_from,
  load_weight, try_load,
}
use prefill_opt.Weights.Deliver.{
  Loader, Delivery, expert_offset, weight_for, load_row_matmul_slices, weights_of,
}
use prefill_opt.Weights.Owner.{node_in_pp_stage_lem, sp_group_moves}
use prefill_opt.Weights.Slices.{row_slice, load_row_lem}
use prefill_opt.Weights.Receive.{read_weight, receive}
use prefill_opt.Weights.Termination.{receive_ends, large_weight_overflows}

abbrev size : ℕ → Size3D
size n = record {
  float_type = f_32;
  z = 1;
  y = 1;
  x = n;
  length = n;
  n_bytes = n * 4;
  n_bytes_xy = n * 4;
}

abbrev slice : RowMatmulSlice
slice = record { float_type = f_32; n_nodes = 2; d0 = 1; n = 2; size = size 4; slice_size = size 2 }

abbrev loader : Loader
loader = record { n_nodes = 4; pp_size = 2; n_layers = 4; layer_offsets = [] }

abbrev offsets : Memory ℕ
offsets x = x

abbrev zeros : Memory ℕ
zeros x = 0

abbrev four : Topology
four = record { n_nodes = 4; pp_size = 2; sp_size = 1; tp_size = 2 }

load_row_lem_example :
    (ds : List Delivery) × (load_row_matmul_slices loader (matmul_w 1) 3 0 slice offsets zeros
      ≡ ok (16, ds))
    × ((g : ℕ) (p : Placement)
        → get_placement four g ≡ ok p
        → g < 4
        → let owner = get_layer_owner_pp_rank [] 3 4 2 (some (matmul_w 1)) in
          weights_of g ds ≡ (
            if (owner == u32_max) || (p.pp_rank == owner)
            then weight_for (matmul_w 1) 3 (expert_offset 0 8) (row_slice offsets 8 p.tp_rank) ∷ []
            else []))
unfolding get_block_size get_bytes mul64
load_row_lem_example =
    load_row_lem four loader (matmul_w 1) 3 0 slice offsets zeros 1 4 (omega arith) refl refl refl
      (λ e. omega (arith, e)) refl refl (omega arith) refl refl (omega arith) (omega arith)

abbrev op : OpConfig
op = record {
  code = 5;
  op_name = 113 ∷ [];
  index = 2;
  input = record { source = 0; pointer_index = 0; pointer_type = 0 };
  output = record { source = 0; pointer_index = 0; pointer_type = 0 };
  weight_size = record {
    float_type = 0;
    z = 1;
    y = 1;
    x = 2;
    size_length = 2;
    n_bytes = 2;
    n_bytes_xy = 2;
  };
  config = [];
}

abbrev segments : List SegmentConfig
segments = record { ops = []; syncs = [] } ∷ record { ops = op ∷ []; syncs = [] } ∷ []

abbrev weight : Weight
weight = record { weight_name = 113 ∷ []; op_index = 2; offset = 0; weight_bytes = 5 ∷ 6 ∷ [] }

-- The weight is loaded into operator 0 of segment 1.
located :
    try_load segments weight
    ≡ record { segment = 1; op = 0; load_offset = 0; loaded = 5 ∷ 6 ∷ [] } ∷ []
unfolding try_load load_weight load_from find_op same
located = refl

receive_ends_example :
    (receive segments (3 ∷ 0 ∷ []) ≢ err out_of_fuel)
    × ((loads : List Load) (rest : List ℕ)
        → receive segments (3 ∷ 0 ∷ []) ≡ ok (loads, rest)
        → length rest ≤ 2)
receive_ends_example = receive_ends segments (3 ∷ 0 ∷ [])

large_weight_overflows_example :
    read_weight 0 2 (113 ∷ 0 ∷ write32 2 (write64 0 (write64 (2 ^ 32 + 1) [])))
    ≡ err buffer_overflow
large_weight_overflows_example =
    large_weight_overflows 0 (113 ∷ []) 2 0 (2 ^ 32 + 1) [] (omega arith) (omega arith)
      (omega arith) (omega arith) (omega arith)

-- Two stages of two nodes, and two stages of two groups of two.
abbrev eight : Topology
eight = record { n_nodes = 8; pp_size = 2; sp_size = 2; tp_size = 2 }

node_in_pp_stage_lem_example : node_in_pp_stage 3 1 2 ≡ ((digits four 3).pp_rank == 1)
node_in_pp_stage_lem_example =
    node_in_pp_stage_lem four 3 1 {p = digits four 3} (omega arith) (omega arith) refl
      (get_placement-eq four (omega arith) 3 (omega arith))

sp_group_moves_example : ((digits eight 2).pp_rank ≡ 0) × (node_in_pp_stage 2 1 2 ≡ true)
sp_group_moves_example =
    sp_group_moves eight {p = digits eight 2} (omega arith) (omega arith)
      (get_placement-eq eight (omega arith) 2 (omega arith))
