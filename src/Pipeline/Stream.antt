-- ===== src/Pipeline/Stream.antt =====
-- src/nn/nn-pipeline.cpp, a sequence of activations on one link, with the options of the transport set
-- before each: the sender writes all of them, and the receiver reads them one by one.
pub mod Ends
pub mod Refinement
use Prim.Native.Nat.{bit_and}
use prefill_opt.Prelude.{
  ℕ, zero, suc, ◌+◌, ◌-◌, ◌*◌, ◌/◌, ◌%◌, ◌<◌, ◌≤◌, ◌≡◌, ◌≢◌, refl, ap, ap₂, sym, ◌∙◌, subst, Bool,
  true, false, not, ◌&&◌, List, [], ◌∷◌, ◌++◌, map, length, get_elem?, set, get_elem?-set_self,
  get_elem?-lt, arith, ok, err, Result, Option, some, none, ltb, leb, ◌==◌, if◌then◌else◌, ◌>>=◌,
}
use prefill_opt.Wire.Codec.{Writer}
use prefill_opt.Wire.Chunks.{net_write}
use prefill_opt.Wire.Codec.Laws.{All}
use prefill_opt.Pipeline.{
  Header, header_bytes, Floats, PipelineError, in_memory, words, flag_stage_skip_bypass,
}
use prefill_opt.Pipeline.Words.{AreBelow, words_all}
use prefill_opt.Pipeline.Codec.{IsSized, carried, CanCarry, select-CanCarry, length-carried}
use prefill_opt.Pipeline.Bytes.{bypass_flag}
use prefill_opt.Pipeline.Message.{
  Message, IsMessage, wire_type, send, arriving, length-zip_with, in_table, wants_delta,
  is_empty-in_memory, sent_payload,
}
use prefill_opt.Core.{FloatType}
use prefill_opt.Pipeline.Receive.{marked}
use prefill_opt.Pipeline.Link.{recv_lem, filled, after, wants-same}
use prefill_opt.Pipeline.Sent.{sent_header, send_lem, sent_header-IsHeader, written}
use prefill_opt.Pipeline.Communicator.{
  Communicator, set_transport_options, is_empty, stage_socket, after_send, write_payload, zip_with,
}
use prefill_opt.Pipeline.Reception.{Reception, received, overwrite, recv_activation, after_receive}

-- An activation, the sender's options for it, and the buffer that the receiver has for it.
pub record Transfer : Type 0 where
  pub delta_enabled : Bool
  pub delta_min_bytes : ℕ
  pub chunk_bytes : ℕ
  pub message : Message
  pub buffer : List ℕ

-- What a caller of `recvActivation` gets; `bypass` is what it reads from the flags.
pub record Delivery : Type 0 where
  pub seq_position : ℕ
  pub batch_index : ℕ
  pub slice_id : ℕ
  pub bypass : Bool
  pub buffer : List ℕ
  pub warned : Bool

abbrev pub options_of : Transfer → Communicator → Communicator
options_of t c = set_transport_options t.delta_enabled t.delta_min_bytes t.chunk_bytes c

abbrev pub delivery : Header → List ℕ → Bool → Delivery
delivery h buffer warned = record {
  seq_position = h.seq_position;
  batch_index = h.batch_index;
  slice_id = h.slice_id;
  bypass = not (bit_and h.flags flag_stage_skip_bypass == 0);
  buffer = buffer;
  warned = warned;
}

abbrev pub delivered_by : Result PipelineError Reception → Option (Delivery × Communicator × List ℕ)
delivered_by (ok (received h buffer warned r rest)) = some (delivery h buffer warned, r, rest)
delivered_by _ = none

abbrev prepend :
    Delivery
    → Option (List Delivery × Communicator × List ℕ)
    → Option (List Delivery × Communicator × List ℕ)
prepend first none = none
prepend first (some (others, last, left)) = some (first ∷ others, last, left)

abbrev and_then :
    Option (Delivery × Communicator × List ℕ)
    → (Communicator → List ℕ → Option (List Delivery × Communicator × List ℕ))
    → Option (List Delivery × Communicator × List ℕ)
and_then none next = none
and_then (some (first, r, rest)) next = prepend first (next r rest)

module _ (fl : Floats) (io stage : ℕ) where
  unfoldable pub send_all :
      Communicator → List Transfer → Result PipelineError (Communicator × Writer)
  send_all c [] = ok (c, λ out. out)
  send_all c (t ∷ ts) = do
    (sender, socket, write) ← send fl io stage (options_of t c) t.message
    (last, write_rest) ← send_all sender ts
    ok (last, λ out. write (write_rest out))

  -- `none` if a call does not return true.
  unfoldable pub receive_all :
      Communicator → List (List ℕ) → List ℕ → Option (List Delivery × Communicator × List ℕ)
  receive_all r [] incoming = some ([], r, incoming)
  receive_all r (buffer ∷ buffers) incoming =
      and_then (delivered_by (recv_activation fl io r stage buffer 0 false incoming))
        (λ next rest. receive_all next buffers rest)

-- Whether the change since `sent` goes over the wire.
unfoldable pub is_change : Transfer → List ℕ → Bool
is_change t sent =
    not (is_empty t.message.floats)
    && (t.delta_enabled
        && (leb t.delta_min_bytes (4 * length t.message.floats)
            && (length sent == length t.message.floats)))

abbrev pub next_sent : Transfer → List ℕ → List ℕ
next_sent t sent = if is_empty t.message.floats then sent else t.message.floats

module _ (fl : Floats) where
  abbrev pub next_held : Transfer → List ℕ → List ℕ → List ℕ
  next_held t sent held =
      if is_empty t.message.floats
      then held
      else arriving fl (is_change t sent) (wire_type t.message) t.message.floats sent held

  abbrev pub next_buffer : Transfer → List ℕ → List ℕ → List ℕ
  next_buffer t sent held =
      if is_empty t.message.floats
      then t.buffer
      else overwrite
          (in_memory 4
            (arriving fl (is_change t sent) (wire_type t.message) t.message.floats sent held))
          t.buffer

  -- What a link does, as a function of the floats that went before, at the two ends.
  abbrev pub outcome : Transfer → List ℕ → List ℕ → Delivery
  outcome t sent held = record {
    seq_position = t.message.seq_position;
    batch_index = t.message.batch_index;
    slice_id = t.message.slice_id;
    bypass = not (t.message.extra_flags == 0);
    buffer = next_buffer t sent held;
    warned = false;
  }

  unfoldable pub deliver : List Transfer → List ℕ → List ℕ → List Delivery
  deliver [] sent held = []
  deliver (t ∷ ts) sent held =
      outcome t sent held ∷ deliver ts (next_sent t sent) (next_held t sent held)

pub record IsTransfer (t : Transfer) : Type 0 where
  pub message : IsMessage t.message
  pub aligned : length t.buffer % 4 ≡ 0
  pub room : 4 * length t.message.floats ≤ length t.buffer

-- The two ends of a link: the sockets at the two nodes, and what they keep of it.
pub record IsLink (stage_to stage_from : ℕ) (c r : Communicator) (sent held : List ℕ) : Type 0 where
  pub to_socket : ℕ
  pub from_socket : ℕ
  pub to_stage : ltb stage_to c.topology.pp_size ≡ true
  pub from_stage : ltb stage_from r.topology.pp_size ≡ true
  pub to : stage_socket c stage_to ≡ ok to_socket
  pub from : stage_socket r stage_from ≡ ok from_socket
  pub sends : get_elem? c.prev_send_by_socket to_socket ≡ some sent
  pub receives : get_elem? r.prev_recv_by_socket from_socket ≡ some held
  pub even : length held ≡ length sent
