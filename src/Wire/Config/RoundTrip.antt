-- ===== src/Wire/Config/RoundTrip.antt =====
-- src/nn/nn-network.cpp: a worker reads the configurations that the root writes.
use prefill_opt.Prelude.{ℕ, ◌≡◌, ok, List, length}
use prefill_opt.Wire.Codec.Laws.{
  read32-write32, read64-write64, read_ack-write_ack, read_string-write_string, read_bytes-append,
  read_many-write_all,
}
use prefill_opt.Wire.Config.{
  SizeImage, NamedSize, PreSync, NetConfig, write_size, read_size, write_named, read_named,
  write_pre_sync, read_pre_sync, net_message, read_net,
}
use prefill_opt.Wire.Config.Node.{
  PointerConfig, OpConfig, SyncConfig, SegmentConfig, NodePlace, NodeConfig, write_pointer,
  read_pointer, write_op, read_op, write_sync, read_sync, write_segment, read_segment, write_place,
  read_place, node_message, read_node,
}
use prefill_opt.Wire.Config.Bounds.{
  IsName, IsSize, IsNamed, IsPreSync, IsNet, IsPointer, IsOp, IsSync, IsSegment, IsPlace, IsNode,
}

read_size-write_size :
    (s : SizeImage) (out : List ℕ) → IsSize s → read_size (write_size s out) ≡ ok (s, out)
unfolding read_size write_size IsSize
read_size-write_size s out (a, b, c, d, e, f, g) = rw (
  read32-write32 s.float_type _ a,
  read32-write32 s.z _ b,
  read32-write32 s.y _ c,
  read32-write32 s.x _ d,
  read64-write64 s.size_length _ e,
  read64-write64 s.n_bytes _ f,
  read64-write64 s.n_bytes_xy _ g,
)

read_named-write_named :
    (c : NamedSize) (out : List ℕ) → IsNamed c → read_named (write_named c out) ≡ ok (c, out)
unfolding read_named write_named IsNamed IsName
read_named-write_named c out ((t, b), s) =
    rw (read_size-write_size c.size _ s, read_string-write_string c.name _ t b)

read_pre_sync-write_pre_sync :
    (c : PreSync) (out : List ℕ) → IsPreSync c → read_pre_sync (write_pre_sync c out) ≡ ok (c, out)
unfolding read_pre_sync write_pre_sync IsPreSync
read_pre_sync-write_pre_sync c out h = rw (read32-write32 c.pre_pipe_index _ h)

pub read_net-net_message :
    (c : NetConfig) (out : List ℕ) → IsNet c → read_net (net_message c out) ≡ ok (c, out)
unfolding read_net net_message IsNet
read_net-net_message c out (b, n, lp, ls, ps, ss) = rw (
  read_ack-write_ack _,
  read32-write32 c.n_batches _ b,
  read32-write32 c.n_nodes _ n,
  read32-write32 (length c.pipes) _ lp,
  read_many-write_all read_named write_named read_named-write_named c.pipes _ ps,
  read32-write32 (length c.pre_syncs) _ ls,
  read_many-write_all read_pre_sync write_pre_sync read_pre_sync-write_pre_sync c.pre_syncs _ ss,
)

read_pointer-write_pointer :
    (p : PointerConfig) (out : List ℕ)
    → IsPointer p
    → read_pointer (write_pointer p out) ≡ ok (p, out)
unfolding read_pointer write_pointer IsPointer
read_pointer-write_pointer p out (a, b, c) = rw (
  read32-write32 p.source _ a,
  read32-write32 p.pointer_index _ b,
  read32-write32 p.pointer_type _ c,
)

read_op-write_op : (c : OpConfig) (out : List ℕ) → IsOp c → read_op (write_op c out) ≡ ok (c, out)
unfolding read_op write_op IsOp IsName
read_op-write_op c out (k, (t, b), i, p, q, s, n) = rw (
  read32-write32 c.code _ k,
  read32-write32 c.index _ i,
  read_size-write_size c.weight_size _ s,
  read32-write32 (length c.config) _ n,
  read_string-write_string c.op_name _ t b,
  read_pointer-write_pointer c.input _ p,
  read_pointer-write_pointer c.output _ q,
  read_bytes-append c.config out,
)

read_sync-write_sync :
    (c : SyncConfig) (out : List ℕ) → IsSync c → read_sync (write_sync c out) ≡ ok (c, out)
unfolding read_sync write_sync IsSync
read_sync-write_sync s out (a, b, c, d, e, f, g, h) = rw (
  read32-write32 s.pipe_index _ a,
  read32-write32 s.sync_type _ b,
  read32-write32 s.k_buffer_index _ c,
  read32-write32 s.v_buffer_index _ d,
  read32-write32 s.local_seq_start _ e,
  read32-write32 s.local_seq_len _ f,
  read32-write32 s.kv_dim0 _ g,
  read32-write32 s.position_pipe_idx _ h,
)

read_segment-write_segment :
    (c : SegmentConfig) (out : List ℕ)
    → IsSegment c
    → read_segment (write_segment c out) ≡ ok (c, out)
unfolding read_segment write_segment IsSegment
read_segment-write_segment c out (lo, ls, os, ss) = rw (
  read32-write32 (length c.syncs) _ ls,
  read32-write32 (length c.ops) _ lo,
  read_many-write_all read_sync write_sync read_sync-write_sync c.syncs _ ss,
  read_many-write_all read_op write_op read_op-write_op c.ops _ os,
)

read_place-write_place :
    (p : NodePlace) (out : List ℕ) → IsPlace p → read_place (write_place p out) ≡ ok (p, out)
unfolding read_place write_place IsPlace
read_place-write_place p out (a, b, c, d, e, f, g, h) = rw (
  read32-write32 p.node_index _ a,
  read32-write32 p.pp_rank _ b,
  read32-write32 p.tp_rank _ c,
  read32-write32 p.tp_group_start _ d,
  read32-write32 p.tp_group_end _ e,
  read32-write32 p.sp_rank _ f,
  read32-write32 p.sp_group_start _ g,
  read32-write32 p.sp_group_end _ h,
)

pub read_node-node_message :
    (c : NodeConfig) (out : List ℕ) → IsNode c → read_node (node_message c out) ≡ ok (c, out)
unfolding read_node node_message IsNode
read_node-node_message c out (p, a, b, x, l, nb, ns, bs, ss) = rw (
  read_ack-write_ack _,
  read_place-write_place c.place _ p,
  read32-write32 c.position_pipe_index _ a,
  read32-write32 c.token_pipe_index _ b,
  read32-write32 c.x_pipe_index _ x,
  read32-write32 c.logits_pipe_index _ l,
  read32-write32 (length c.buffers) _ nb,
  read32-write32 (length c.segments) _ ns,
  read_many-write_all read_named write_named read_named-write_named c.buffers _ bs,
  read_many-write_all read_segment write_segment read_segment-write_segment c.segments _ ss,
)
