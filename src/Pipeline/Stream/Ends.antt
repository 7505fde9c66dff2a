-- ===== src/Pipeline/Stream/Ends.antt =====
-- src/nn/nn-pipeline.cpp: what the two ends of a link keep from one activation to the next.
use prefill_opt.Prelude.{
  ℕ, ◌<◌, ◌≡◌, refl, sym, ◌∙◌, subst, Bool, true, false, not, ◌&&◌, List, length, get_elem?, set,
  get_elem?-set_self, get_elem?-lt, ok, some, ltb, if◌then◌else◌,
}
use prefill_opt.Wire.Codec.{Writer}
use prefill_opt.Wire.Chunks.{net_write}
use prefill_opt.Pipeline.{Header, header_bytes, Floats, in_memory}
use prefill_opt.Pipeline.Words.{words_all}
use prefill_opt.Pipeline.Codec.{IsSized, carried, CanCarry, select-CanCarry, length-carried}
use prefill_opt.Pipeline.Bytes.{bypass_flag}
use prefill_opt.Pipeline.Message.{
  wire_type, send, arriving, length-zip_with, in_table, wants_delta, is_empty-in_memory,
  sent_payload,
}
use prefill_opt.Core.{FloatType}
use prefill_opt.Pipeline.Receive.{marked}
use prefill_opt.Pipeline.Link.{recv_lem, after, wants-same}
use prefill_opt.Pipeline.Sent.{sent_header, send_lem, sent_header-IsHeader, written}
use prefill_opt.Pipeline.Communicator.{
  Communicator, set_transport_options, is_empty, stage_socket, after_send, write_payload, zip_with,
}
use prefill_opt.Pipeline.Reception.{recv_activation, after_receive}
use prefill_opt.Pipeline.Stream.{
  Transfer, options_of, delivered_by, is_change, next_sent, next_held, outcome, IsTransfer, IsLink,
}

-- What each end keeps, whether or not the message has floats.
sent_table :
    (empty : Bool) (table : List (List ℕ)) (socket : ℕ) {sent : List ℕ} (floats : List ℕ)
    → get_elem? table socket ≡ some sent
    → get_elem? (if true && not empty then set table socket floats else table) socket
      ≡ some (if empty then sent else floats)
sent_table true table socket floats known = known
sent_table false table socket floats known =
    get_elem?-set_self table socket floats (get_elem?-lt table socket known)

module _ (r : Communicator) (socket flags n : ℕ) (got : List ℕ) (h : Header) where
  abbrev next_receiver : Bool → Communicator
  next_receiver empty = if empty then marked r flags else after_receive r socket got n h

  held_table :
      (empty : Bool) (held : List ℕ)
      → get_elem? r.prev_recv_by_socket socket ≡ some held
      → get_elem? (next_receiver empty).prev_recv_by_socket socket
        ≡ some (if empty then held else got)
  unfolding after_receive
  held_table true held known = known
  held_table false held known = rw (in_table r.prev_recv_by_socket socket known) (
      get_elem?-set_self r.prev_recv_by_socket socket got
        (get_elem?-lt r.prev_recv_by_socket socket known))

  same_topology : (empty : Bool) → (next_receiver empty).topology ≡ r.topology
  unfolding after_receive
  same_topology true = refl
  same_topology false = refl

  same_socket :
      (empty : Bool) (stage : ℕ) → stage_socket (next_receiver empty) stage ≡ stage_socket r stage
  unfolding after_receive stage_socket
  same_socket true stage = refl
  same_socket false stage = refl

module _ (fl : Floats) (sized : IsSized fl) where
  length-arriving :
      (delta : Bool) (floats sent held : List ℕ) (wire : FloatType)
      → (delta ≡ true → length floats ≡ length sent)
      → length held ≡ length sent
      → CanCarry wire (length floats)
      → length (arriving fl delta wire floats sent held) ≡ length floats
  length-arriving false floats sent held wire same even can =
      length-carried fl sized wire floats can
  length-arriving true floats sent held wire same even can =
      let size : length (zip_with fl.minus floats sent) ≡ length floats =
        length-zip_with fl.minus floats sent (same refl) in
      let back : length (carried fl wire (zip_with fl.minus floats sent)) ≡ length floats =
        length-carried fl sized wire (zip_with fl.minus floats sent)
          (subst (CanCarry wire) (sym size) can)
        ∙ size in
      length-zip_with fl.plus held (carried fl wire (zip_with fl.minus floats sent))
        (even ∙ sym (same refl) ∙ sym back)
      ∙ even
      ∙ sym (same refl)

  length-next :
      (empty : Bool) (a b c d : List ℕ)
      → length a ≡ length b
      → length c ≡ length d
      → length (if empty then a else c) ≡ length (if empty then b else d)
  length-next true a b c d left right = left
  length-next false a b c d left right = right

  module _ (to from : ℕ) (c r : Communicator) (t : Transfer) (sent held : List ℕ) (v : IsTransfer t)
      (l : IsLink to from c r sent held) where
    can : CanCarry (wire_type t.message) (length t.message.floats)
    can = select-CanCarry t.message.dtype (length t.message.floats) v.message.has_type

    change-same : is_change t sent ≡ true → length t.message.floats ≡ length sent
    unfolding is_change set_transport_options
    change-same e = wants-same (options_of t c) t.message.floats sent e

    abbrev head : Header
    head = sent_header fl (options_of t c) sent t.message

    abbrev got : List ℕ
    got =
        arriving fl (wants_delta (options_of t c) t.message.floats sent) (wire_type t.message)
          t.message.floats sent held

    pub step-IsLink :
        IsLink to from
          (after_send
            (options_of t c)
            l.to_socket
            (in_memory 4 t.message.floats)
            (sent_header fl (options_of t c) sent t.message))
          (after fl (options_of t c) r l.from_socket t.message sent held)
          (next_sent t sent)
          (next_held fl t sent held)
    unfolding after_send set_transport_options is_change stage_socket
    step-IsLink = record {
      to_socket = l.to_socket;
      from_socket = l.from_socket;
      to_stage = l.to_stage;
      from_stage =
          subst (λ topology. ltb from topology.pp_size ≡ true)
            (sym (
              same_topology r l.from_socket head.flags (length t.message.floats) got head
                (is_empty t.message.floats)))
            l.from_stage;
      to = l.to;
      from =
          same_socket r l.from_socket head.flags (length t.message.floats) got head
            (is_empty t.message.floats) from
          ∙ l.from;
      sends =
          rw
            (
              in_table c.prev_send_by_socket l.to_socket l.sends,
              is_empty-in_memory t.message.floats,
              words_all t.message.floats v.message.are_words,
            )
            (sent_table (is_empty t.message.floats) c.prev_send_by_socket l.to_socket
              t.message.floats l.sends);
      receives =
          held_table r l.from_socket head.flags (length t.message.floats) got head
            (is_empty t.message.floats) held l.receives;
      even = length-next (is_empty t.message.floats) held sent _ t.message.floats l.even (
          length-arriving (is_change t sent) t.message.floats sent held (wire_type t.message)
            change-same l.even can);
    }

    abbrev pub first : ℕ → Writer
    first io out = net_write io (header_bytes head) (
        write_payload io head.stream_chunk_bytes
          (sent_payload fl (options_of t c) sent t.message.floats (wire_type t.message)) out)

    pub sent_step :
        (io : ℕ)
        → send fl io to (options_of t c) t.message
          ≡ ok (
            after_send (options_of t c) l.to_socket (in_memory 4 t.message.floats) head,
            l.to_socket,
            first io,
          )
    unfolding stage_socket set_transport_options
    sent_step io =
        send_lem fl sized (options_of t c) l.to_socket l.sends t.message v.message io to l.to_stage
          l.to

    pub received_step :
        (io_to io_from : ℕ) (out : List ℕ)
        → 0 < io_to
        → 0 < io_from
        → delivered_by (recv_activation fl io_from r from t.buffer 0 false (first io_to out))
          ≡ some (
            outcome fl t sent held,
            after fl (options_of t c) r l.from_socket t.message sent held,
            out,
          )
    unfolding set_transport_options is_change
    received_step io_to io_from out p q =
        rw
          (
            written fl sized (options_of t c) l.to_socket l.sends t.message v.message io_to out p,
            recv_lem fl sized (options_of t c) r l.from_socket sent held l.receives l.even t.buffer
                v.aligned io_from q t.message from out v.message v.room
                (sent_header-IsHeader fl sized (options_of t c) l.to_socket l.sends t.message
                  v.message)
                l.from_stage l.from,
            bypass_flag (ltb 0 head.stream_chunk_bytes)
                (wants_delta (options_of t c) t.message.floats sent) t.message.extra_flags
                v.message.extra,
          )
          refl
