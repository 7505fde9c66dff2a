-- ===== src/Pipeline/Reception.antt =====
-- src/nn/nn-pipeline.cpp, `NnPipelineCommunicator::recvActivation`. The bytes of a socket come in as a list.
use Prim.Native.Nat.{bit_and}
use prefill_opt.Prelude.{
  ℕ, ◌*◌, ◌%◌, Bool, false, ◌&&◌, not, Result, ok, err, guard, ◌>>=◌, ◌>>◌, List, [], ◌++◌, length,
  take, drop, get_or, set, Option, some, none, ltb, ◌==◌, if◌then◌else◌,
}
use prefill_opt.Wire.Codec.{Reader, WireError}
use prefill_opt.Wire.Chunks.{net_read, read_chunks}
use prefill_opt.Pipeline.{
  Header, header_of, header_size, flag_chunked, flag_delta, type_of_number, words, in_memory,
  Floats, PipelineError, invalid_source, calculate_checksum, decode_to_f32,
}
use prefill_opt.Pipeline.Communicator.{Communicator, stage_socket, zip_with}

-- How `recvActivation` ends. It returns true if it `received`, else false: `nothing_came` when it may
-- not wait for the header, `broken` when the socket throws, `rejected` when a test of the message
-- fails, and then the bytes of the message are gone. Each carries what is left to come in.
pub data Reception : Type 0 where
  nothing_came : List ℕ → Reception
  broken : Reception
  rejected : Header → List ℕ → Reception
  received : Header → List ℕ → Bool → Communicator → List ℕ → Reception

-- The start of the buffer is written.
abbrev pub overwrite : List ℕ → List ℕ → List ℕ
overwrite new buffer = new ++ drop (length new) buffer

unfoldable pub stream_chunk : Header → ℕ
stream_chunk h = if bit_and h.flags flag_chunked == 0 then 0 else h.stream_chunk_bytes

unfoldable pub read_payload : ℕ → Header → Reader (List ℕ)
read_payload io h bytes =
    let chunk = stream_chunk h in
    if chunk == 0
    then net_read io h.payload_bytes bytes
    else read_chunks (net_read io) h.payload_bytes chunk h.payload_bytes bytes

unfoldable pub after_receive : Communicator → ℕ → List ℕ → ℕ → Header → Communicator
after_receive c socket floats n h = record c {
  prev_recv_by_socket =
      if ltb socket (length c.prev_recv_by_socket)
      then set c.prev_recv_by_socket socket floats
      else c.prev_recv_by_socket;
  last_recv_stats = record {
    payload_bytes = n * 4;
    wire_bytes = h.payload_bytes;
    stream_chunk_bytes = stream_chunk h;
    flags = h.flags;
  };
}

module _ (fl : Floats) (c : Communicator) (socket : ℕ) (buffer : List ℕ) where
  -- The branch for a delta: the base is what was received before.
  unfoldable pub take_delta : Header → Bool → List ℕ → Option (List ℕ × ℕ) → Reception
  take_delta h warned incoming none = rejected h incoming
  take_delta h warned incoming (some (bytes, n)) =
      let base = get_or c.prev_recv_by_socket socket [] in
      let floats = zip_with fl.plus base (take n (words bytes)) in
      if ltb socket (length c.prev_recv_by_socket) && (length base == n)
      then received h (overwrite (in_memory 4 floats) buffer) warned
          (after_receive c socket floats n h) incoming
      else rejected h incoming

  unfoldable pub take_full : Header → Bool → List ℕ → Option (List ℕ × ℕ) → Reception
  take_full h warned incoming none = rejected h incoming
  take_full h warned incoming (some (bytes, n)) =
      let buffer' = overwrite bytes buffer in
      received h buffer' warned (after_receive c socket (take n (words buffer')) n h) incoming

  -- From the checksum on, which only warns.
  unfoldable pub take_payload : Header → List ℕ → List ℕ → Reception
  take_payload h payload incoming =
      let dtype = type_of_number h.dtype in
      let warned = not (calculate_checksum payload dtype == h.checksum) in
      let decoded = decode_to_f32 fl payload dtype (length buffer) in
      if bit_and h.flags flag_delta == 0
      then take_full h warned incoming decoded
      else if length buffer % 4 == 0
      then take_delta h warned incoming decoded
      else rejected h incoming

  unfoldable pub take_message : ℕ → Header → List ℕ → Reception
  take_message io h incoming =
      if not (h.total_payload_bytes == 0) && not (h.total_payload_bytes == h.payload_bytes)
      then rejected h incoming
      else elim (read_payload io h incoming) [
        | err failure ↦ broken
        | ok (payload, rest) ↦
            if h.payload_bytes == 0
            then received h buffer false
                (record c {
                  last_recv_stats = record {
                    payload_bytes = 0;
                    wire_bytes = 0;
                    stream_chunk_bytes = 0;
                    flags = h.flags;
                  };
                })
                rest
            else take_payload h payload rest
      ]

  unfoldable pub read_message : ℕ → Result WireError (List ℕ × List ℕ) → Reception
  read_message io (err failure) = broken
  read_message io (ok (bytes, incoming)) = take_message io (header_of bytes) incoming

-- `came`: whether the header came within the attempts, where these are bounded.
unfoldable pub recv_activation :
    Floats → ℕ → Communicator → ℕ → List ℕ → ℕ → Bool → List ℕ → Result PipelineError Reception
recv_activation fl io c source_pp_rank buffer header_max_attempts came incoming = do
  guard (ltb source_pp_rank c.topology.pp_size) invalid_source
  socket ← stage_socket c source_pp_rank
  if header_max_attempts == 0
      then ok (read_message fl c socket buffer io (net_read io header_size incoming))
      else if came
      then ok (read_message fl c socket buffer io (net_read io header_size incoming))
      else ok (nothing_came incoming)
