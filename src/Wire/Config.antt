-- ===== src/Wire/Config.antt =====
-- src/nn/nn-core.hpp, the configurations, and src/nn/nn-network.cpp, `NnRootConfigWriter` and
-- `NnWorkerConfigReader`. An enum is kept as its number, an array as the list of its elements, and a
-- name as the text before its final zero.
pub mod Node
pub mod Session
pub mod Bounds
pub mod RoundTrip
pub mod Cut
pub mod Transfer
mod Tests
use prefill_opt.Prelude.{ℕ, ◌+◌, ◌*◌, List, [], ◌∷◌, ◌++◌, length}
use prefill_opt.Wire.Codec.{
  Reader, Writer, ◌>>=◌, ◌>>◌, pure, write32, write64, read_bytes, read32, read64, write_ack,
  read_ack, write_string, read_string, write_all, read_many,
}

-- `NnSize3D` as it lies in memory: four numbers of 4 bytes and three of 8.
pub record SizeImage : Type 0 where
  pub float_type : ℕ
  pub z : ℕ
  pub y : ℕ
  pub x : ℕ
  pub size_length : ℕ
  pub n_bytes : ℕ
  pub n_bytes_xy : ℕ

-- `NnPipeConfig` and `NnBufferConfig`
pub record NamedSize : Type 0 where
  pub name : List ℕ
  pub size : SizeImage

-- `NnPreSyncConfig`
pub record PreSync : Type 0 where
  pub pre_pipe_index : ℕ

pub record NetConfig : Type 0 where
  pub n_batches : ℕ
  pub n_nodes : ℕ
  pub pipes : List NamedSize
  pub pre_syncs : List PreSync

unfoldable pub write_size : SizeImage → Writer
write_size s out = write32 s.float_type (
    write32 s.z (
      write32 s.y
        (write32 s.x (write64 s.size_length (write64 s.n_bytes (write64 s.n_bytes_xy out))))))

unfoldable pub read_size : Reader SizeImage
read_size = do
  float_type ← read32
  z ← read32
  y ← read32
  x ← read32
  size_length ← read64
  n_bytes ← read64
  n_bytes_xy ← read64
  pure record {
    float_type = float_type;
    z = z;
    y = y;
    x = x;
    size_length = size_length;
    n_bytes = n_bytes;
    n_bytes_xy = n_bytes_xy;
  }

unfoldable pub write_named : NamedSize → Writer
write_named c out = write_size c.size (write_string c.name out)

unfoldable pub read_named : Reader NamedSize
read_named = do size ← read_size; name ← read_string; pure record { name = name; size = size }

unfoldable pub write_pre_sync : PreSync → Writer
write_pre_sync c out = write32 c.pre_pipe_index out

unfoldable pub read_pre_sync : Reader PreSync
read_pre_sync = do pre_pipe_index ← read32; pure record { pre_pipe_index = pre_pipe_index }

-- `writeNet` up to the ack that it waits for
unfoldable pub net_message : NetConfig → Writer
net_message c out = write_ack (
    write32 c.n_batches (
      write32 c.n_nodes (
        write32 (length c.pipes) (
          write_all write_named c.pipes
            (write32 (length c.pre_syncs) (write_all write_pre_sync c.pre_syncs out))))))

-- `readNet` up to the ack that it answers with
unfoldable pub read_net : Reader NetConfig
read_net = do
  read_ack
  n_batches ← read32
  n_nodes ← read32
  n_pipes ← read32
  pipes ← read_many read_named n_pipes
  n_pre_syncs ← read32
  pre_syncs ← read_many read_pre_sync n_pre_syncs
  pure record { n_batches = n_batches; n_nodes = n_nodes; pipes = pipes; pre_syncs = pre_syncs }
