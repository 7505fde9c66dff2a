-- ===== src/Wire/Config/Node.antt =====
-- src/nn/nn-core.hpp, the configuration of a node, and src/nn/nn-network.cpp, `writeNode` and `readNode`.
use prefill_opt.Prelude.{ℕ, List, ◌++◌, length}
use prefill_opt.Wire.Codec.{
  Reader, Writer, ◌>>=◌, ◌>>◌, pure, write32, read_bytes, read32, write_ack, read_ack, write_string,
  read_string, write_all, read_many,
}
use prefill_opt.Wire.Config.{SizeImage, NamedSize, write_size, read_size, write_named, read_named}

-- `NnPointerConfig`, which is written as it lies in memory
pub record PointerConfig : Type 0 where
  pub source : ℕ
  pub pointer_index : ℕ
  pub pointer_type : ℕ

-- `NnOpConfig`, with its parameters as bytes
pub record OpConfig : Type 0 where
  pub code : ℕ
  pub op_name : List ℕ
  pub index : ℕ
  pub input : PointerConfig
  pub output : PointerConfig
  pub weight_size : SizeImage
  pub config : List ℕ

-- `NnSyncConfig`
pub record SyncConfig : Type 0 where
  pub pipe_index : ℕ
  pub sync_type : ℕ
  pub k_buffer_index : ℕ
  pub v_buffer_index : ℕ
  pub local_seq_start : ℕ
  pub local_seq_len : ℕ
  pub kv_dim0 : ℕ
  pub position_pipe_idx : ℕ

pub record SegmentConfig : Type 0 where
  pub ops : List OpConfig
  pub syncs : List SyncConfig

-- `NnNodeConfig`, its place in the cluster
pub record NodePlace : Type 0 where
  pub node_index : ℕ
  pub pp_rank : ℕ
  pub tp_rank : ℕ
  pub tp_group_start : ℕ
  pub tp_group_end : ℕ
  pub sp_rank : ℕ
  pub sp_group_start : ℕ
  pub sp_group_end : ℕ

-- `NnNodeConfig`
pub record NodeConfig : Type 0 where
  pub place : NodePlace
  pub position_pipe_index : ℕ
  pub token_pipe_index : ℕ
  pub x_pipe_index : ℕ
  pub logits_pipe_index : ℕ
  pub buffers : List NamedSize
  pub segments : List SegmentConfig

unfoldable pub write_pointer : PointerConfig → Writer
write_pointer p out = write32 p.source (write32 p.pointer_index (write32 p.pointer_type out))

unfoldable pub read_pointer : Reader PointerConfig
read_pointer = do
  source ← read32
  pointer_index ← read32
  pointer_type ← read32
  pure record { source = source; pointer_index = pointer_index; pointer_type = pointer_type }

unfoldable pub write_op : OpConfig → Writer
write_op c out = write32 c.code (
    write32 c.index (
      write_size c.weight_size (
        write32 (length c.config) (
          write_string c.op_name
            (write_pointer c.input (write_pointer c.output (c.config ++ out)))))))

unfoldable pub read_op : Reader OpConfig
read_op = do
  code ← read32
  index ← read32
  weight_size ← read_size
  config_size ← read32
  op_name ← read_string
  input ← read_pointer
  output ← read_pointer
  config ← read_bytes config_size
  pure record {
    code = code;
    op_name = op_name;
    index = index;
    input = input;
    output = output;
    weight_size = weight_size;
    config = config;
  }

unfoldable pub write_sync : SyncConfig → Writer
write_sync c out = write32 c.pipe_index (
    write32 c.sync_type (
      write32 c.k_buffer_index (
        write32 c.v_buffer_index (
          write32 c.local_seq_start
            (write32 c.local_seq_len (write32 c.kv_dim0 (write32 c.position_pipe_idx out)))))))

unfoldable pub read_sync : Reader SyncConfig
read_sync = do
  pipe_index ← read32
  sync_type ← read32
  k_buffer_index ← read32
  v_buffer_index ← read32
  local_seq_start ← read32
  local_seq_len ← read32
  kv_dim0 ← read32
  position_pipe_idx ← read32
  pure record {
    pipe_index = pipe_index;
    sync_type = sync_type;
    k_buffer_index = k_buffer_index;
    v_buffer_index = v_buffer_index;
    local_seq_start = local_seq_start;
    local_seq_len = local_seq_len;
    kv_dim0 = kv_dim0;
    position_pipe_idx = position_pipe_idx;
  }

unfoldable pub write_segment : SegmentConfig → Writer
write_segment c out =
    write32 (length c.syncs)
      (write32 (length c.ops) (write_all write_sync c.syncs (write_all write_op c.ops out)))

unfoldable pub read_segment : Reader SegmentConfig
read_segment = do
  n_syncs ← read32
  n_ops ← read32
  syncs ← read_many read_sync n_syncs
  ops ← read_many read_op n_ops
  pure record { ops = ops; syncs = syncs }

unfoldable pub write_place : NodePlace → Writer
write_place p out = write32 p.node_index (
    write32 p.pp_rank (
      write32 p.tp_rank (
        write32 p.tp_group_start (
          write32 p.tp_group_end
            (write32 p.sp_rank (write32 p.sp_group_start (write32 p.sp_group_end out)))))))

unfoldable pub read_place : Reader NodePlace
read_place = do
  node_index ← read32
  pp_rank ← read32
  tp_rank ← read32
  tp_group_start ← read32
  tp_group_end ← read32
  sp_rank ← read32
  sp_group_start ← read32
  sp_group_end ← read32
  pure record {
    node_index = node_index;
    pp_rank = pp_rank;
    tp_rank = tp_rank;
    tp_group_start = tp_group_start;
    tp_group_end = tp_group_end;
    sp_rank = sp_rank;
    sp_group_start = sp_group_start;
    sp_group_end = sp_group_end;
  }

-- `writeNode` up to the ack that it waits for
unfoldable pub node_message : NodeConfig → Writer
node_message c out = write_ack (
    write_place c.place (
      write32 c.position_pipe_index (
        write32 c.token_pipe_index (
          write32 c.x_pipe_index (
            write32 c.logits_pipe_index (
              write32 (length c.buffers) (
                write32 (length c.segments)
                  (write_all write_named c.buffers (write_all write_segment c.segments out)))))))))

-- `readNode` up to the ack that it answers with
unfoldable pub read_node : Reader NodeConfig
read_node = do
  read_ack
  place ← read_place
  position_pipe_index ← read32
  token_pipe_index ← read32
  x_pipe_index ← read32
  logits_pipe_index ← read32
  n_buffers ← read32
  n_segments ← read32
  buffers ← read_many read_named n_buffers
  segments ← read_many read_segment n_segments
  pure record {
    place = place;
    position_pipe_index = position_pipe_index;
    token_pipe_index = token_pipe_index;
    x_pipe_index = x_pipe_index;
    logits_pipe_index = logits_pipe_index;
    buffers = buffers;
    segments = segments;
  }
