-- ===== src/Wire/Config/Bounds.antt =====
-- src/nn/nn-core.hpp: the configurations whose numbers have the widths of the source's fields.
use prefill_opt.Prelude.{ℕ, suc, ◌<◌, List, length, u32, u64}
use prefill_opt.Wire.Codec.Laws.{All, IsText}
use prefill_opt.Wire.Config.{SizeImage, NamedSize, PreSync, NetConfig}
use prefill_opt.Wire.Config.Node.{
  PointerConfig, OpConfig, SyncConfig, SegmentConfig, NodePlace, NodeConfig,
}

unfoldable pub IsName : List ℕ → Type 0
IsName text = IsText text × (suc (length text) < u32)

unfoldable pub IsSize : SizeImage → Type 0
IsSize s =
    (s.float_type < u32)
    × (s.z < u32)
    × (s.y < u32)
    × (s.x < u32)
    × (s.size_length < u64)
    × (s.n_bytes < u64)
    × (s.n_bytes_xy < u64)

unfoldable pub IsNamed : NamedSize → Type 0
IsNamed c = IsName c.name × IsSize c.size

unfoldable pub IsPreSync : PreSync → Type 0
IsPreSync c = c.pre_pipe_index < u32

unfoldable pub IsNet : NetConfig → Type 0
IsNet c =
    (c.n_batches < u32)
    × (c.n_nodes < u32)
    × (length c.pipes < u32)
    × (length c.pre_syncs < u32)
    × All IsNamed c.pipes
    × All IsPreSync c.pre_syncs

unfoldable pub IsPointer : PointerConfig → Type 0
IsPointer p = (p.source < u32) × (p.pointer_index < u32) × (p.pointer_type < u32)

unfoldable pub IsOp : OpConfig → Type 0
IsOp c =
    (c.code < u32)
    × IsName c.op_name
    × (c.index < u32)
    × IsPointer c.input
    × IsPointer c.output
    × IsSize c.weight_size
    × (length c.config < u32)

unfoldable pub IsSync : SyncConfig → Type 0
IsSync c =
    (c.pipe_index < u32)
    × (c.sync_type < u32)
    × (c.k_buffer_index < u32)
    × (c.v_buffer_index < u32)
    × (c.local_seq_start < u32)
    × (c.local_seq_len < u32)
    × (c.kv_dim0 < u32)
    × (c.position_pipe_idx < u32)

unfoldable pub IsSegment : SegmentConfig → Type 0
IsSegment c = (length c.ops < u32) × (length c.syncs < u32) × All IsOp c.ops × All IsSync c.syncs

unfoldable pub IsPlace : NodePlace → Type 0
IsPlace p =
    (p.node_index < u32)
    × (p.pp_rank < u32)
    × (p.tp_rank < u32)
    × (p.tp_group_start < u32)
    × (p.tp_group_end < u32)
    × (p.sp_rank < u32)
    × (p.sp_group_start < u32)
    × (p.sp_group_end < u32)

unfoldable pub IsNode : NodeConfig → Type 0
IsNode c =
    IsPlace c.place
    × (c.position_pipe_index < u32)
    × (c.token_pipe_index < u32)
    × (c.x_pipe_index < u32)
    × (c.logits_pipe_index < u32)
    × (length c.buffers < u32)
    × (length c.segments < u32)
    × All IsNamed c.buffers
    × All IsSegment c.segments
