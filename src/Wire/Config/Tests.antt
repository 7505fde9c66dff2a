-- ===== src/Wire/Config/Tests.antt =====
-- A cluster of two nodes with one pipe `X`, and a second node with one buffer, one synchronization and
-- one operator with two bytes of parameters.
use prefill_opt.Prelude.{
  ℕ, suc, ◌≡◌, ◌≢◌, refl, arith, List, [], ◌∷◌, ok, err, get_elem?, some, replicate, c_string,
}
use prefill_opt.Wire.Codec.{
  closed, le_bytes, from_le_bytes, write32, write64, read_bytes, read32, read64, write_ack,
  read_ack, write_string, read_string, write_all, read_many,
}
use prefill_opt.Wire.Codec.Laws.{All, IsText}
use prefill_opt.Wire.Config.{
  SizeImage, NetConfig, write_size, write_named, write_pre_sync, net_message, read_net, read_size,
  read_named, read_pre_sync,
}
use prefill_opt.Wire.Config.Node.{
  OpConfig, SyncConfig, SegmentConfig, NodeConfig, write_place, node_message,
}
use prefill_opt.Wire.Config.Session.{End, write_to_workers, read_config, answered, receiver}
use prefill_opt.Wire.Config.Bounds.{
  IsName, IsSize, IsNamed, IsPreSync, IsNet, IsPointer, IsOp, IsSync, IsSegment, IsPlace, IsNode,
}
use prefill_opt.Wire.Config.Cut.{read_config_cut}
use prefill_opt.Wire.Config.Transfer.{config_transfer}

-- What a run computes with.
program : Unit {0}
unfolding le_bytes from_le_bytes write32 write64 read_bytes read32 read64 write_ack read_ack
    c_string write_string read_string write_all read_many write_size read_size write_named
    read_named write_pre_sync read_pre_sync net_message read_net write_place node_message
    read_config
program = tt

bounds : Unit {0}
unfolding All IsText IsName IsSize IsNamed IsPreSync IsNet IsPointer IsOp IsSync IsSegment IsPlace
    IsNode
bounds = tt

abbrev x_size : SizeImage
x_size = record {
  float_type = 0;
  z = 1;
  y = 4;
  x = 256;
  size_length = 1024;
  n_bytes = 4096;
  n_bytes_xy = 4096;
}

abbrev net : NetConfig
net = record {
  n_batches = 4;
  n_nodes = 2;
  pipes = record { name = 88 ∷ []; size = x_size } ∷ [];
  pre_syncs = record { pre_pipe_index = 0 } ∷ [];
}

abbrev op : OpConfig
op = record {
  code = 5;
  op_name = 113 ∷ [];
  index = 0;
  input = record { source = 0; pointer_index = 2; pointer_type = 1 };
  output = record { source = 1; pointer_index = 0; pointer_type = 1 };
  weight_size = x_size;
  config = 7 ∷ 9 ∷ [];
}

abbrev sync : SyncConfig
sync = record {
  pipe_index = 2;
  sync_type = 1;
  k_buffer_index = 0;
  v_buffer_index = 0;
  local_seq_start = 0;
  local_seq_len = 0;
  kv_dim0 = 0;
  position_pipe_idx = 0;
}

abbrev segment : SegmentConfig
segment = record { ops = op ∷ []; syncs = sync ∷ [] }

abbrev node : NodeConfig
node = record {
  place = record {
    node_index = 1;
    pp_rank = 0;
    tp_rank = 1;
    tp_group_start = 0;
    tp_group_end = 1;
    sp_rank = 0;
    sp_group_start = 0;
    sp_group_end = 0;
  };
  position_pipe_index = 0;
  token_pipe_index = 1;
  x_pipe_index = 2;
  logits_pipe_index = 3;
  buffers = record { name = 107 ∷ []; size = x_size } ∷ [];
  segments = segment ∷ [];
}

not_zero : (c : ℕ) → suc c ≢ 0
not_zero c e = omega (arith, e)

x_size-IsSize : IsSize x_size
unfolding bounds
x_size-IsSize =
    (omega arith, omega arith, omega arith, omega arith, omega arith, omega arith, omega arith)

net-IsNet : IsNet net
unfolding bounds
net-IsNet = (
  omega arith,
  omega arith,
  omega arith,
  omega arith,
  ((((not_zero 87, tt), omega arith), x_size-IsSize), tt),
  (omega arith, tt),
)

op-IsOp : IsOp op
unfolding bounds
op-IsOp = (
  omega arith,
  ((not_zero 112, tt), omega arith),
  omega arith,
  (omega arith, omega arith, omega arith),
  (omega arith, omega arith, omega arith),
  x_size-IsSize,
  omega arith,
)

sync-IsSync : IsSync sync
unfolding bounds
sync-IsSync = (
  omega arith,
  omega arith,
  omega arith,
  omega arith,
  omega arith,
  omega arith,
  omega arith,
  omega arith,
)

segment-IsSegment : IsSegment segment
unfolding bounds
segment-IsSegment = (omega arith, omega arith, (op-IsOp, tt), (sync-IsSync, tt))

node-IsNode : IsNode node
unfolding bounds
node-IsNode = (
  (
    omega arith,
    omega arith,
    omega arith,
    omega arith,
    omega arith,
    omega arith,
    omega arith,
    omega arith,
  ),
  omega arith,
  omega arith,
  omega arith,
  omega arith,
  omega arith,
  omega arith,
  ((((not_zero 106, tt), omega arith), x_size-IsSize), tt),
  (segment-IsSegment, tt),
)

config_transfer_example :
    (ends : List End) × (write_to_workers net (node ∷ node ∷ []) (replicate 1 answered) ≡ ok ends)
    × ((i : ℕ) (worker : NodeConfig)
        → get_elem? (node ∷ []) i ≡ some worker
        → (s : End) × (get_elem? ends i ≡ some s)
          × (read_config (receiver (s.sent []))
              ≡ ok
                  (net, worker, record { sent = λ out. write_ack (write_ack out); incoming = [] })))
unfolding All
config_transfer_example = config_transfer net node (node ∷ []) net-IsNet (node-IsNode, tt) refl

-- The first three bytes of the ack alone.
read_config_cut_example : read_config (receiver (170 ∷ 170 ∷ 103 ∷ [])) ≡ err closed
unfolding program
read_config_cut_example =
    read_config_cut net node (170 ∷ 170 ∷ 103 ∷ []) 1 _ net-IsNet node-IsNode refl
