-- ===== src/Topology.antt =====
-- src/nn/nn-topology.hpp: `NnParallelTopology`, the PP × SP × TP arrangement of the nodes.
-- A rank is a number; the arithmetic on `NnUint` wraps.
pub mod Ranks
pub mod Groups
pub mod Tests
use prefill_opt.Prelude.{
  ℕ, ◌+◌, ◌/◌, ◌%◌, ◌<◌, Bool, not, Result, ok, err, guard, ◌>>=◌, ◌>>◌, ltb, leb, ◌==◌, add32,
  mul32,
}

-- `NnNodePlacement`
pub record Placement : Type 0 where
  pub global_rank : ℕ
  pub pp_rank : ℕ
  pub sp_rank : ℕ
  pub tp_rank : ℕ
  pub tp_group_start : ℕ
  pub tp_group_end : ℕ
  pub sp_group_start : ℕ
  pub sp_group_end : ℕ

-- `NnParallelTopology`
pub record Topology : Type 0 where
  pub n_nodes : ℕ
  pub pp_size : ℕ
  pub sp_size : ℕ
  pub tp_size : ℕ

-- The exceptions of the header, and the undefined division by a product that wrapped to zero.
pub data Error : Type 0 where
  no_nodes no_pp no_sp not_divisible division_by_zero : Error
  rank_out_of_range pp_out_of_range sp_out_of_range tp_out_of_range : Error

unfoldable pub create : ℕ → ℕ → ℕ → Result Error Topology
create n_nodes pp_size sp_size = do
  guard (leb 1 n_nodes) no_nodes
  guard (leb 1 pp_size) no_pp
  guard (leb 1 sp_size) no_sp
  guard (not (mul32 pp_size sp_size == 0)) division_by_zero
  guard (n_nodes % mul32 pp_size sp_size == 0) not_divisible
  ok (record {
    n_nodes = n_nodes;
    pp_size = pp_size;
    sp_size = sp_size;
    tp_size = n_nodes / mul32 pp_size sp_size;
  })

unfoldable pub get_placement : Topology → ℕ → Result Error Placement
get_placement t global_rank = do
  guard (ltb global_rank t.n_nodes) rank_out_of_range
  let lane_size = mul32 t.sp_size t.tp_size
  guard (not (lane_size == 0)) division_by_zero
  let pp_rank = global_rank / lane_size
  let rem = global_rank % lane_size
  guard (not (t.tp_size == 0)) division_by_zero
  let sp_rank = rem / t.tp_size
  let tp_rank = rem % t.tp_size
  let tp_group_start = add32 (mul32 (mul32 pp_rank t.sp_size) t.tp_size) (mul32 sp_rank t.tp_size)
  let sp_group_start = mul32 (mul32 pp_rank t.sp_size) t.tp_size
  ok (record {
    global_rank = global_rank;
    pp_rank = pp_rank;
    sp_rank = sp_rank;
    tp_rank = tp_rank;
    tp_group_start = tp_group_start;
    tp_group_end = add32 tp_group_start t.tp_size;
    sp_group_start = sp_group_start;
    sp_group_end = add32 sp_group_start (mul32 t.sp_size t.tp_size);
  })

-- `getGlobalRank(ppRank, spRank, tpRank)`
unfoldable pub get_global_rank : Topology → ℕ → ℕ → ℕ → Result Error ℕ
get_global_rank t pp_rank sp_rank tp_rank = do
  guard (ltb pp_rank t.pp_size) pp_out_of_range
  guard (ltb sp_rank t.sp_size) sp_out_of_range
  guard (ltb tp_rank t.tp_size) tp_out_of_range
  ok (add32 (add32 (mul32 pp_rank (mul32 t.sp_size t.tp_size)) (mul32 sp_rank t.tp_size)) tp_rank)

-- `getGlobalRank(ppRank, tpRank)`
unfoldable pub get_global_rank_pp_tp : Topology → ℕ → ℕ → Result Error ℕ
get_global_rank_pp_tp t pp_rank tp_rank = get_global_rank t pp_rank 0 tp_rank

unfoldable pub get_lane_count : Topology → ℕ
get_lane_count t = mul32 t.sp_size t.tp_size

unfoldable pub get_lane_id : Topology → Placement → ℕ
get_lane_id t placement = add32 (mul32 placement.sp_rank t.tp_size) placement.tp_rank
