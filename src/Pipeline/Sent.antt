-- ===== src/Pipeline/Sent.antt =====
-- src/nn/nn-pipeline.cpp, what `sendActivation` writes to the socket for one activation.
use prefill_opt.Prelude.{
  ℕ, ◌<◌, ◌≡◌, refl, ap, sym, ◌∙◌, subst, true, List, [], ◌∷◌, ◌++◌, length, get_elem?, arith, u32,
  u64, ok, some, ltb,
}
use prefill_opt.Core.{FloatType, f_unk, f_32, f_16, f_q40, f_q80}
use prefill_opt.Pipeline.{Header, Floats, header_bytes, in_memory, type_number, calculate_checksum}
use prefill_opt.Wire.Chunks.{net_write}
use prefill_opt.Pipeline.Words.{IsHeader, length-in_memory}
use prefill_opt.Pipeline.Codec.{IsSized, encoded, CanCarry, select-CanCarry, length-encoded}
use prefill_opt.Pipeline.Bytes.{net_write-eq, write_payload-eq, flags-lt}
use prefill_opt.Pipeline.Message.{
  Message, IsMessage, wire_type, send, wants_delta, source, sent_payload, length-source,
  use_delta-eq, wire_payload-eq,
}
use prefill_opt.Pipeline.Receive.{header_for}
use prefill_opt.Pipeline.Communicator.{
  Communicator, after_send, header_flags, write_chunk_bytes, write_payload, stage_socket,
  activation_header, send_activation,
}

-- The header that is sent, if `sent` went before.
abbrev pub sent_header : Floats → Communicator → List ℕ → Message → Header
sent_header fl c sent m =
    let payload = sent_payload fl c sent m.floats (wire_type m) in
    let chunk = write_chunk_bytes c (length payload) in
    header_for m.seq_position m.batch_index m.slice_id (wire_type m) chunk
      (header_flags (ltb 0 chunk) (wants_delta c m.floats sent) m.extra_flags) payload

chunk-lt : (c : Communicator) (n : ℕ) → n < u64 → write_chunk_bytes c n < u64
chunk-lt c n h = ground arith

type_number-lt : (wire : FloatType) → type_number wire < u32
unfolding type_number
type_number-lt f_unk = omega arith
type_number-lt f_32 = omega arith
type_number-lt f_16 = omega arith
type_number-lt f_q40 = omega arith
type_number-lt f_q80 = omega arith

module _ (fl : Floats) (sized : IsSized fl) (c : Communicator) (socket : ℕ) {sent : List ℕ}
    (known : get_elem? c.prev_send_by_socket socket ≡ some sent) (m : Message)
    (v : IsMessage m) where
  can : CanCarry (wire_type m) (length m.floats)
  can = select-CanCarry m.dtype (length m.floats) v.has_type

  pub send_lem :
      (io target : ℕ)
      → ltb target c.topology.pp_size ≡ true
      → stage_socket c target ≡ ok socket
      → send fl io target c m
        ≡ ok (
          after_send c socket (in_memory 4 m.floats) (sent_header fl c sent m),
          socket,
          λ out. net_write io (header_bytes (sent_header fl c sent m)) (
              write_payload io
                (sent_header fl c sent m).stream_chunk_bytes
                (sent_payload fl c sent m.floats (wire_type m))
                out),
        )
  unfolding send send_activation activation_header
  send_lem io target stage at =
      rw
        (
          stage,
          at,
          length-in_memory 4 m.floats,
          wire_payload-eq fl sized c socket known m.floats (wire_type m) v.are_words can,
          use_delta-eq fl sized c socket known m.floats,
        )
        refl

  can_source :
      CanCarry (wire_type m) (length (source fl (wants_delta c m.floats sent) m.floats sent))
  can_source =
      subst (CanCarry (wire_type m)) (sym (length-source fl sized c socket known m.floats)) can

  payload-lt : length (sent_payload fl c sent m.floats (wire_type m)) < u64
  payload-lt = by_floats m.floats (
      omega (
        arith,
        v.fits,
        length-source fl sized c socket known m.floats,
        length-encoded fl sized (wire_type m) _ can_source,
      ))
    where
      by_floats :
          (floats : List ℕ)
          → length (encoded fl (wire_type m) (source fl (wants_delta c floats sent) floats sent))
            < u64
          → length (sent_payload fl c sent floats (wire_type m)) < u64
      by_floats [] h = omega arith
      by_floats (x ∷ floats) h = h

  pub sent_header-IsHeader : IsHeader (sent_header fl c sent m)
  unfolding calculate_checksum
  sent_header-IsHeader = record {
    seq_position = v.seq_position;
    batch_index = v.batch_index;
    slice_id = v.slice_id;
    dtype = type_number-lt (wire_type m);
    payload_bytes = payload-lt;
    total_payload_bytes = payload-lt;
    stream_chunk_bytes = chunk-lt c _ payload-lt;
    flags = flags-lt _ _ m.extra_flags v.extra;
    checksum = omega arith;
  }

  -- What is written to the socket, in front of what follows.
  pub written :
      (io : ℕ) (out : List ℕ)
      → 0 < io
      → net_write io (header_bytes (sent_header fl c sent m)) (
          write_payload io
            (sent_header fl c sent m).stream_chunk_bytes
            (sent_payload fl c sent m.floats (wire_type m))
            out)
        ≡ header_bytes (sent_header fl c sent m)
          ++ (sent_payload fl c sent m.floats (wire_type m) ++ out)
  written io out pos =
      net_write-eq io pos _ _
      ∙ ap (λ r. header_bytes (sent_header fl c sent m) ++ r) (write_payload-eq io pos _ _ out)
