-- ===== src/Pipeline/Tests.antt =====
-- Two stages of one node each, with a stand-in for floats, and runs of the link.
use prefill_opt.Prelude.{
  ℕ, zero, suc, ◌+◌, ◌-◌, ◌*◌, ◌/◌, ◌%◌, ◌^◌, ◌≤◌, ◌≡◌, refl, ◌∙◌, Bool, true, false, List, [], ◌∷◌,
  length, replicate, length-replicate, map, arith, ok, err, u32, some, none, inl, inr, sub32, add32,
  mul32,
}
use prefill_opt.Core.{f_32}
use prefill_opt.Topology.{Topology, get_placement, get_global_rank}
use prefill_opt.Sockets.{get_pipeline_socket_index}
use prefill_opt.Wire.Codec.{Writer, le_bytes, from_le_bytes, read_bytes}
use prefill_opt.Wire.Codec.Laws.{All}
use prefill_opt.Wire.Chunks.{net_write, net_read, write_chunks, read_chunks, chunk_size}
use prefill_opt.Pipeline.{
  Floats, header_bytes, header_of, type_number, type_of_number, words, in_memory, select_wire_dtype,
  checksum_words, calculate_checksum, encode_from_f32, decode_to_f32,
}
use prefill_opt.Pipeline.Words.{AreBelow}
use prefill_opt.Pipeline.Bytes.{IsExtra}
use prefill_opt.Pipeline.Codec.{IsSized, carried}
use prefill_opt.Pipeline.Communicator.{
  Communicator, no_stats, make_communicator, set_transport_options, stage_socket, zip_with,
  use_delta, header_flags, source_bytes, write_payload, activation_header, after_send, wire_payload,
  send_activation,
}
use prefill_opt.Pipeline.Reception.{
  stream_chunk, read_payload, after_receive, take_delta, take_full, take_payload, take_message,
  read_message, recv_activation,
}
use prefill_opt.Pipeline.Message.{send}
use prefill_opt.Pipeline.Stream.{
  Transfer, send_all, receive_all, is_change, deliver, IsTransfer, IsLink,
}
use prefill_opt.Pipeline.Stream.Refinement.{stream_lem}

-- Words as whole numbers; a half keeps the upper bits, and quantized blocks are all zero.
abbrev whole_floats : Floats
whole_floats = record {
  plus = λ a b. (a + b) % u32;
  minus = λ a b. (a + u32 - b) % u32;
  f32_to_f16 = λ w. w / 2 ^ 16 % 2 ^ 16;
  f16_to_f32 = λ h. h * 2 ^ 16 % u32;
  quantize_q80 = λ ws. replicate (length ws / 32 * 34) 0;
  dequantize_q80 = λ bytes. replicate (length bytes / 34 * 32) 0;
  quantize_q40 = λ ws. replicate (length ws / 32 * 18) 0;
  dequantize_q40 = λ bytes. replicate (length bytes / 18 * 32) 0;
}

zeros-AreBelow : (n : ℕ) → AreBelow u32 (replicate n 0)
unfolding All
zeros-AreBelow zero = tt
zeros-AreBelow (suc n) = (omega arith, zeros-AreBelow n)

sized : IsSized whole_floats
sized = record {
  plus-lt = λ a b. omega arith;
  minus-lt = λ a b. omega arith;
  f16-lt = λ w. omega arith;
  f32-lt = λ h. omega arith;
  length-q80 = λ k ws e. length-replicate (length ws / 32 * 34) 0 ∙ omega (arith, e);
  length-q40 = λ k ws e. length-replicate (length ws / 32 * 18) 0 ∙ omega (arith, e);
  length-of_q80 = λ k bytes e. length-replicate (length bytes / 34 * 32) 0 ∙ omega (arith, e);
  length-of_q40 = λ k bytes e. length-replicate (length bytes / 18 * 32) 0 ∙ omega (arith, e);
  of_q80-lt = λ bytes. zeros-AreBelow (length bytes / 34 * 32);
  of_q40-lt = λ bytes. zeros-AreBelow (length bytes / 18 * 32);
}

abbrev stages : Topology
stages = record { n_nodes = 2; pp_size = 2; sp_size = 1; tp_size = 1 }

abbrev stage_at : ℕ → Communicator
stage_at node = record {
  topology = stages;
  my_node_index = node;
  my_pp_rank = node;
  my_sp_rank = 0;
  my_tp_rank = 0;
  delta_enabled = false;
  delta_min_bytes = 0;
  chunk_bytes = 0;
  prev_send_by_socket = [] ∷ [];
  prev_recv_by_socket = [] ∷ [];
  last_send_stats = no_stats;
  last_recv_stats = no_stats;
}

made : make_communicator 1 stages 1 false 0 0 ≡ ok (stage_at 1)
unfolding make_communicator get_placement mul32 add32
made = refl

link : IsLink 1 0 (stage_at 0) (stage_at 1) [] []
unfolding stage_socket get_pipeline_socket_index get_global_rank mul32 add32 sub32
link = record {
  to_socket = 0;
  from_socket = 0;
  to_stage = refl;
  from_stage = refl;
  to = refl;
  from = refl;
  sends = refl;
  receives = refl;
  even = refl;
}

abbrev transfer : Bool → List ℕ → ℕ → Transfer
transfer delta floats extra = record {
  delta_enabled = delta;
  delta_min_bytes = 4;
  chunk_bytes = 3;
  message = record {
    seq_position = 7;
    batch_index = 1;
    slice_id = 0;
    floats = floats;
    dtype = f_32;
    extra_flags = extra;
  };
  buffer = replicate 8 9;
}

abbrev two_changes : List Transfer
two_changes =
    transfer true (5 ∷ 300 ∷ []) 0 ∷ transfer true (6 ∷ 200 ∷ []) 0 ∷ transfer false [] 4 ∷ []

transfer-IsTransfer :
    (delta : Bool) (floats : List ℕ) (extra : ℕ)
    → AreBelow u32 floats
    → 4 * length floats ≤ 8
    → IsExtra extra
    → IsTransfer (transfer delta floats extra)
transfer-IsTransfer delta floats extra h room e = record {
  message = record {
    seq_position = omega arith;
    batch_index = omega arith;
    slice_id = omega arith;
    are_words = h;
    fits = omega arith;
    has_type = cc;
    extra = e;
  };
  aligned = refl;
  room = room;
}

two_changes-IsTransfer : All IsTransfer two_changes
unfolding All
two_changes-IsTransfer = (
  transfer-IsTransfer true (5 ∷ 300 ∷ []) 0 (omega arith) (omega arith) (inl refl),
  (
    transfer-IsTransfer true (6 ∷ 200 ∷ []) 0 (omega arith) (omega arith) (inl refl),
    (transfer-IsTransfer false [] 4 tt (omega arith) (inr refl), tt),
  ),
)

stream_lem_example :
    (last : Communicator) × (write : Writer) × (send_all whole_floats 2 1 (stage_at 0) two_changes
      ≡ ok (last, write))
    × ((out : List ℕ)
        → (r' : Communicator) × (receive_all whole_floats 5 0
              (stage_at 1)
              (map (λ t. t.buffer) two_changes)
              (write out)
            ≡ some (deliver whole_floats two_changes [] [], r', out)))
stream_lem_example =
    stream_lem whole_floats sized 1 0 2 5 two_changes (stage_at 0) (stage_at 1) [] [] (omega arith)
      (omega arith) link two_changes-IsTransfer

-- The second pair of floats is sent as a change and is there in full.
changes_arrive :
    map (λ d. d.buffer) (deliver whole_floats two_changes [] [])
    ≡ (5 ∷ 0 ∷ 0 ∷ 0 ∷ 44 ∷ 1 ∷ 0 ∷ 0 ∷ [])
      ∷ (6 ∷ 0 ∷ 0 ∷ 0 ∷ 200 ∷ 0 ∷ 0 ∷ 0 ∷ [])
      ∷ replicate 8 9
      ∷ []
unfolding deliver is_change zip_with carried in_memory le_bytes select_wire_dtype
changes_arrive = refl

program : Unit {0}
unfolding send_all send send_activation set_transport_options stage_socket get_pipeline_socket_index
    get_global_rank mul32 add32 sub32 use_delta header_flags source_bytes write_payload
    activation_header after_send wire_payload net_write write_chunks chunk_size header_bytes
    le_bytes type_number calculate_checksum checksum_words from_le_bytes select_wire_dtype words
    in_memory zip_with encode_from_f32 receive_all recv_activation read_message take_message
    take_payload take_delta take_full read_payload stream_chunk net_read read_chunks read_bytes
    header_of type_of_number decode_to_f32 after_receive
program = tt

abbrev bytes_from : Communicator → List Transfer → List ℕ
bytes_from c ts = elim (send_all whole_floats 2 1 c ts) [ ok (last, write) ↦ write [] | err e ↦ [] ]

-- A change finds no base if the receiver has not had the activation before.
no_base :
    receive_all whole_floats 5 0 (stage_at 1) (replicate 8 9 ∷ []) (
      bytes_from
        (record (stage_at 0) { prev_send_by_socket = (1 ∷ 2 ∷ []) ∷ [] })
        (transfer true (5 ∷ 300 ∷ []) 0 ∷ []))
    ≡ none
unfolding program
no_base = refl
