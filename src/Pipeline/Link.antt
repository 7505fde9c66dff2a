-- ===== src/Pipeline/Link.antt =====
-- src/nn/nn-pipeline.cpp, one activation from `sendActivation` of one stage to `recvActivation` of
-- another.
use Prim.Native.Nat.{bit_and}
use prefill_opt.Prelude.{
  ℕ, suc, ◌*◌, ◌%◌, ◌<◌, ◌≤◌, ◌≡◌, refl, ap, sym, ◌∙◌, subst, Bool, true, false, not, List, [], ◌∷◌,
  ◌++◌, length, get_elem?, arith, u32, ok, some, ltb, ◌==◌, if◌then◌else◌,
}
use prefill_opt.Core.{FloatType}
use prefill_opt.Pipeline.{Floats, header_bytes, in_memory, flag_delta, select_wire_dtype}
use prefill_opt.Pipeline.Words.{AreBelow, IsHeader, header_of-header_bytes}
use prefill_opt.Pipeline.Codec.{
  IsSized, carried, encoded, CanCarry, select-CanCarry, length-encoded,
}
use prefill_opt.Pipeline.Bytes.{read_header, delta_flag}
use prefill_opt.Pipeline.Message.{
  length-zip_with, AreBelow-zip_with, Message, IsMessage, wire_type, wants_delta, source, arriving,
  sent_payload,
}
use prefill_opt.Pipeline.Receive.{header_for, marked, take_message-eq, take_full-eq, take_delta-eq}
use prefill_opt.Pipeline.Communicator.{
  Communicator, zip_with, is_empty, header_flags, write_chunk_bytes, stage_socket,
}
use prefill_opt.Pipeline.Reception.{
  received, overwrite, after_receive, take_message, read_message, recv_activation,
}
use prefill_opt.Pipeline.Sent.{sent_header}

-- What the receiver's buffer and communicator become, if it held `held`.
abbrev pub filled : Floats → Communicator → Message → List ℕ → List ℕ → List ℕ → List ℕ
filled fl c m sent held buffer =
    if is_empty m.floats
    then buffer
    else overwrite
        (in_memory 4 (arriving fl (wants_delta c m.floats sent) (wire_type m) m.floats sent held))
        buffer

abbrev pub after :
    Floats → Communicator → Communicator → ℕ → Message → List ℕ → List ℕ → Communicator
after fl c r socket m sent held =
    if is_empty m.floats
    then marked r (sent_header fl c sent m).flags
    else after_receive r socket
        (arriving fl (wants_delta c m.floats sent) (wire_type m) m.floats sent held)
        (length m.floats) (sent_header fl c sent m)

nonempty : (n : ℕ) → 0 < n → (n == 0) ≡ false
nonempty n h = ground arith

module _ (fl : Floats) (sized : IsSized fl) (r : Communicator) (socket : ℕ) (sent held : List ℕ)
    (kept : get_elem? r.prev_recv_by_socket socket ≡ some held) (even : length held ≡ length sent)
    (buffer : List ℕ) (aligned : length buffer % 4 ≡ 0) (io : ℕ) (pos : 0 < io)
    (seq_position batch_index slice_id chunk flags : ℕ) (wire : FloatType) (floats out : List ℕ)
    (some_floats : 0 < length floats) (are_words : AreBelow u32 floats)
    (can : CanCarry wire (length floats)) (room : 4 * length floats ≤ length buffer) where
  taken :
      (delta : Bool)
      → (delta ≡ true → length floats ≡ length sent)
      → (bit_and flags flag_delta == 0) ≡ not delta
      → let src = source fl delta floats sent in
        let payload = encoded fl wire src in
        let got = arriving fl delta wire floats sent held in
        take_message fl r socket buffer io
          (header_for seq_position batch_index slice_id wire chunk flags payload)
          (payload ++ out)
        ≡ received
            (header_for seq_position batch_index slice_id wire chunk flags payload)
            (overwrite (in_memory 4 got) buffer)
            false
            (after_receive r socket got
              (length floats)
              (header_for seq_position batch_index slice_id wire chunk flags payload))
            out
  taken false same flag =
      let payload = encoded fl wire floats in
      take_message-eq fl sized r socket seq_position batch_index slice_id chunk flags wire buffer io
        payload out pos
      ∙ rw (nonempty (length payload) (omega (arith, length-encoded fl sized wire floats can))) (
          take_full-eq fl sized r socket seq_position batch_index slice_id chunk flags wire buffer
            floats out are_words can aligned room flag)
  taken true same flag =
      let src = zip_with fl.minus floats sent in
      let size : length src ≡ length floats = length-zip_with fl.minus floats sent (same refl) in
      let payload = encoded fl wire src in
      let can' : CanCarry wire (length src) = subst (CanCarry wire) (sym size) can in
      let got = zip_with fl.plus held (carried fl wire src) in
      take_message-eq fl sized r socket seq_position batch_index slice_id chunk flags wire buffer io
        payload out pos
      ∙ rw (nonempty (length payload) (omega (arith, size, length-encoded fl sized wire src can')))
          (take_delta-eq fl sized r socket seq_position batch_index slice_id chunk flags wire buffer
            src out (AreBelow-zip_with fl.minus floats sent sized.minus-lt) can' aligned
            (omega (arith, size)) held kept (omega (arith, size, even, same refl)) flag)
      ∙ ap
          (λ n.
            received (header_for seq_position batch_index slice_id wire chunk flags payload)
              (overwrite (in_memory 4 got) buffer) false
              (after_receive r socket got n
                (header_for seq_position batch_index slice_id wire chunk flags payload))
              out)
          size

pub wants-same :
    (c : Communicator) (floats sent : List ℕ)
    → wants_delta c floats sent ≡ true
    → length floats ≡ length sent
wants-same c floats sent h = ground arith

module _ (fl : Floats) (sized : IsSized fl) (c r : Communicator) (socket : ℕ) (sent held : List ℕ)
    (kept : get_elem? r.prev_recv_by_socket socket ≡ some held) (even : length held ≡ length sent)
    (buffer : List ℕ) (aligned : length buffer % 4 ≡ 0) (io : ℕ) (pos : 0 < io) where
  message_at :
      (seq_position batch_index slice_id extra : ℕ) (floats : List ℕ) (dtype : FloatType)
      (out : List ℕ)
      → let m : Message = record {
        seq_position = seq_position;
        batch_index = batch_index;
        slice_id = slice_id;
        floats = floats;
        dtype = dtype;
        extra_flags = extra;
      } in
        IsMessage m
        → 4 * length floats ≤ length buffer
        → take_message fl r socket buffer io
            (sent_header fl c sent m)
            (sent_payload fl c sent floats (wire_type m) ++ out)
          ≡ received
              (sent_header fl c sent m)
              (filled fl c m sent held buffer)
              false
              (after fl c r socket m sent held)
              out
  message_at seq_position batch_index slice_id extra [] dtype out v room =
      take_message-eq fl sized r socket seq_position batch_index slice_id _ _ _ buffer io [] out pos
  message_at seq_position batch_index slice_id extra (x ∷ xs) dtype out v room =
      let wire = select_wire_dtype dtype (4 * suc (length xs)) in
      let delta = wants_delta c (x ∷ xs) sent in
      let chunk = write_chunk_bytes c (length (sent_payload fl c sent (x ∷ xs) wire)) in
      taken fl sized r socket sent held kept even buffer aligned io pos seq_position batch_index
        slice_id chunk (header_flags (ltb 0 chunk) delta extra) wire (x ∷ xs) out (omega arith)
        v.are_words (select-CanCarry dtype (suc (length xs)) v.has_type) room delta
        (wants-same c (x ∷ xs) sent) (delta_flag (ltb 0 chunk) delta extra v.extra)

  -- The receiver reads what the sender has written, and leaves what follows.
  pub recv_lem :
      (m : Message) (source_stage : ℕ) (out : List ℕ)
      → IsMessage m
      → 4 * length m.floats ≤ length buffer
      → IsHeader (sent_header fl c sent m)
      → ltb source_stage r.topology.pp_size ≡ true
      → stage_socket r source_stage ≡ ok socket
      → recv_activation fl io r source_stage buffer 0 false (
          header_bytes (sent_header fl c sent m)
          ++ (sent_payload fl c sent m.floats (wire_type m) ++ out))
        ≡ ok (
            received
              (sent_header fl c sent m)
              (filled fl c m sent held buffer)
              false
              (after fl c r socket m sent held)
              out)
  unfolding recv_activation read_message
  recv_lem m source_stage out v room hv stage at =
      rw
        (
          stage,
          at,
          read_header io pos (sent_header fl c sent m)
              (sent_payload fl c sent m.floats (wire_type m) ++ out),
          header_of-header_bytes (sent_header fl c sent m) hv,
        )
        (ap (λ reception. ok reception)
          (message_at m.seq_position m.batch_index m.slice_id m.extra_flags m.floats m.dtype out v
            room))
