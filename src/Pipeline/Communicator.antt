-- ===== src/Pipeline/Communicator.antt =====
-- src/nn/nn-pipeline.cpp, `NnPipelineCommunicator`: its state, and how it sends. The timers are left out.
-- The network has one chunk size for its own reads and writes, `io`.
use Prim.Native.Nat.{bit_or}
use prefill_opt.Prelude.{
  ℕ, ◌/◌, ◌%◌, Bool, true, false, ◌&&◌, not, Result, ok, err, guard, ◌>>=◌, ◌>>◌, List, [], ◌∷◌,
  length, get_or, set, replicate, ltb, leb, ◌==◌, if◌then◌else◌, sub32, add32,
}
use prefill_opt.Core.{FloatType}
use prefill_opt.Topology.{Topology, get_placement}
use prefill_opt.Sockets.{SocketError, get_pipeline_socket_index}
use prefill_opt.Wire.Codec.{Writer}
use prefill_opt.Wire.Chunks.{net_write, write_chunks}
use prefill_opt.Pipeline.{
  Header, header_bytes, flag_chunked, flag_delta, type_number, words, in_memory, Floats,
  PipelineError, invalid_target, socket_error, last_stage, first_stage, select_wire_dtype,
  calculate_checksum, encode_from_f32,
}

-- `NnPipelineTransferStats`, but for the times
pub record TransferStats : Type 0 where
  pub payload_bytes : ℕ
  pub wire_bytes : ℕ
  pub stream_chunk_bytes : ℕ
  pub flags : ℕ

-- What was last sent and received is kept for every socket.
pub record Communicator : Type 0 where
  pub topology : Topology
  pub my_node_index : ℕ
  pub my_pp_rank : ℕ
  pub my_sp_rank : ℕ
  pub my_tp_rank : ℕ
  pub delta_enabled : Bool
  pub delta_min_bytes : ℕ
  pub chunk_bytes : ℕ
  pub prev_send_by_socket : List (List ℕ)
  pub prev_recv_by_socket : List (List ℕ)
  pub last_send_stats : TransferStats
  pub last_recv_stats : TransferStats

abbrev pub no_stats : TransferStats
no_stats = record { payload_bytes = 0; wire_bytes = 0; stream_chunk_bytes = 0; flags = 0 }

-- The constructor, with the number of sockets of the network
unfoldable pub make_communicator :
    ℕ → Topology → ℕ → Bool → ℕ → ℕ → Result PipelineError Communicator
make_communicator n_sockets topology my_node_index delta_enabled delta_min_bytes chunk_bytes =
    elim (get_placement topology my_node_index) [
      | err failure ↦ err (socket_error (SocketError.topology_error failure))
      | ok placement ↦ ok (record {
        topology = topology;
        my_node_index = my_node_index;
        my_pp_rank = placement.pp_rank;
        my_sp_rank = placement.sp_rank;
        my_tp_rank = placement.tp_rank;
        delta_enabled = delta_enabled;
        delta_min_bytes = delta_min_bytes;
        chunk_bytes = chunk_bytes;
        prev_send_by_socket = replicate n_sockets [];
        prev_recv_by_socket = replicate n_sockets [];
        last_send_stats = no_stats;
        last_recv_stats = no_stats;
      })
    ]

unfoldable pub set_transport_options : Bool → ℕ → ℕ → Communicator → Communicator
set_transport_options delta_enabled delta_min_bytes chunk_bytes c = record c {
  delta_enabled = delta_enabled;
  delta_min_bytes = delta_min_bytes;
  chunk_bytes = chunk_bytes;
}

unfoldable pub should_send_activations : Communicator → Bool
should_send_activations c = ltb c.my_pp_rank (sub32 c.topology.pp_size 1)

unfoldable pub should_recv_activations : Communicator → Bool
should_recv_activations c = ltb 0 c.my_pp_rank

unfoldable pub get_target_pp_rank : Communicator → Result PipelineError ℕ
unfolding should_send_activations
get_target_pp_rank c = do guard (should_send_activations c) last_stage; ok (add32 c.my_pp_rank 1)

unfoldable pub get_source_pp_rank : Communicator → Result PipelineError ℕ
unfolding should_recv_activations
get_source_pp_rank c = do guard (should_recv_activations c) first_stage; ok (sub32 c.my_pp_rank 1)

-- The socket to the node of another stage with this node's tensor-parallel rank
unfoldable pub stage_socket : Communicator → ℕ → Result PipelineError ℕ
stage_socket c pp_rank =
    elim (get_pipeline_socket_index c.topology c.my_node_index c.my_sp_rank pp_rank c.my_tp_rank) [
      | ok socket ↦ ok socket
      | err failure ↦ err (socket_error failure)
    ]

-- Position by position, as far as both reach.
unfoldable pub zip_with : (ℕ → ℕ → ℕ) → List ℕ → List ℕ → List ℕ
zip_with f [] ys = []
zip_with f (x ∷ xs) [] = []
zip_with f (x ∷ xs) (y ∷ ys) = f x y ∷ zip_with f xs ys

abbrev pub is_empty : List ℕ → Bool
is_empty [] = true
is_empty (b ∷ bytes) = false

-- `useDelta`: as many floats were sent to this socket before.
unfoldable pub use_delta : Communicator → ℕ → List ℕ → Bool
use_delta c socket bytes =
    not (is_empty bytes)
    && (c.delta_enabled
        && (leb c.delta_min_bytes (length bytes)
            && ((length bytes % 4 == 0)
                && (ltb socket (length c.prev_send_by_socket)
                    && (length (get_or c.prev_send_by_socket socket []) == length bytes / 4)))))

-- `header.flags`
unfoldable pub header_flags : Bool → Bool → ℕ → ℕ
header_flags chunked delta extra_flags =
    let flags = if chunked then bit_or 0 flag_chunked else 0 in
    let flags = if delta then bit_or flags flag_delta else flags in bit_or flags extra_flags

-- What is sent for the activation: the change since the last, or all of it.
unfoldable pub source_bytes : Floats → Communicator → ℕ → List ℕ → List ℕ
source_bytes fl c socket bytes =
    if use_delta c socket bytes
    then in_memory 4 (zip_with fl.minus (words bytes) (get_or c.prev_send_by_socket socket []))
    else bytes

abbrev pub write_chunk_bytes : Communicator → ℕ → ℕ
write_chunk_bytes c total =
    if ltb 0 c.chunk_bytes && ltb c.chunk_bytes total then c.chunk_bytes else 0

unfoldable pub write_payload : ℕ → ℕ → List ℕ → Writer
write_payload io chunk_bytes payload out =
    if chunk_bytes == 0
    then net_write io payload out
    else write_chunks (net_write io) (length payload) chunk_bytes payload out

unfoldable pub activation_header :
    Communicator → ℕ → ℕ → ℕ → ℕ → List ℕ → FloatType → List ℕ → ℕ → Header
activation_header c socket seq_position batch_index slice_id bytes wire_dtype payload extra_flags =
    let total = length payload in
    let chunk = write_chunk_bytes c total in
    record {
      seq_position = seq_position;
      batch_index = batch_index;
      slice_id = slice_id;
      dtype = type_number wire_dtype;
      payload_bytes = total;
      total_payload_bytes = total;
      stream_chunk_bytes = chunk;
      flags = header_flags (ltb 0 chunk) (use_delta c socket bytes) extra_flags;
      checksum = calculate_checksum payload wire_dtype;
    }

-- What is left behind by a send.
unfoldable pub after_send : Communicator → ℕ → List ℕ → Header → Communicator
after_send c socket bytes header = record c {
  prev_send_by_socket =
      if ltb socket (length c.prev_send_by_socket) && not (is_empty bytes)
      then set c.prev_send_by_socket socket (words bytes)
      else c.prev_send_by_socket;
  last_send_stats = record {
    payload_bytes = length bytes;
    wire_bytes = header.payload_bytes;
    stream_chunk_bytes = header.stream_chunk_bytes;
    flags = header.flags;
  };
}

-- `encodeFromF32` of what is sent; nothing is encoded for no bytes.
unfoldable pub wire_payload :
    Floats → Communicator → ℕ → List ℕ → FloatType → Result PipelineError (List ℕ)
wire_payload fl c socket bytes wire_dtype =
    if is_empty bytes then ok [] else encode_from_f32 fl (source_bytes fl c socket bytes) wire_dtype

-- The communicator after the call, the socket, and what was written to it.
unfoldable pub send_activation :
    Floats
    → ℕ
    → Communicator
    → ℕ
    → ℕ
    → ℕ
    → ℕ
    → List ℕ
    → FloatType
    → ℕ
    → Result PipelineError (Communicator × ℕ × Writer)
send_activation fl io c target_pp_rank seq_position batch_index slice_id bytes dtype extra_flags =
    do
      guard (ltb target_pp_rank c.topology.pp_size) invalid_target
      let wire_dtype = select_wire_dtype dtype (length bytes)
      socket ← stage_socket c target_pp_rank
      payload ← wire_payload fl c socket bytes wire_dtype
      let header =
          activation_header c socket seq_position batch_index slice_id bytes wire_dtype payload
            extra_flags
      ok (
        after_send c socket bytes header,
        socket,
        λ out.
            net_write io (header_bytes header)
              (write_payload io header.stream_chunk_bytes payload out),
      )
