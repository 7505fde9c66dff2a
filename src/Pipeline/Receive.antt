-- ===== src/Pipeline/Receive.antt =====
-- src/nn/nn-pipeline.cpp, `recvActivation`: what it makes of a header and a payload that belong together.
use Prim.Native.Nat.{bit_and}
use prefill_opt.Prelude.{
  ℕ, ◌*◌, ◌%◌, ◌<◌, ◌≤◌, ◌≡◌, refl, ap, ◌∙◌, subst, Bool, true, false, not, ◌&&◌, List, ◌++◌,
  length, take, drop, take_all, get_elem?, arith, u32, some, ◌==◌, ==_iff, if◌then◌else◌,
}
use prefill_opt.Core.{FloatType, f_unk, f_32, f_16, f_q40, f_q80}
use prefill_opt.Wire.Codec.Laws.{read_bytes-append}
use prefill_opt.Pipeline.{
  Header, Floats, words, in_memory, type_number, type_of_number, calculate_checksum, flag_delta,
}
use prefill_opt.Pipeline.Words.{AreBelow, words_all, words-in_memory}
use prefill_opt.Pipeline.Codec.{
  IsSized, carried, encoded, CanCarry, decode-encoded, length-carried, carried-AreBelow,
}
use prefill_opt.Pipeline.Bytes.{read_payload-eq}
use prefill_opt.Pipeline.Message.{get_or-eq, in_table}
use prefill_opt.Pipeline.Communicator.{Communicator, zip_with}
use prefill_opt.Pipeline.Reception.{
  received, overwrite, after_receive, take_delta, take_full, take_payload, take_message,
}

eq_self : (n : ℕ) → (n == n) ≡ true
eq_self n = (==_iff n n).1 refl

and_false : (b : Bool) → (b && false) ≡ false
and_false true = refl
and_false false = refl

type_of_number-type_number :
    (wire : FloatType) (n : ℕ) → CanCarry wire n → type_of_number (type_number wire) ≡ wire
unfolding type_of_number type_number CanCarry
type_of_number-type_number f_unk n can = absurd can
type_of_number-type_number f_32 n can = refl
type_of_number-type_number f_16 n can = refl
type_of_number-type_number f_q40 n can = refl
type_of_number-type_number f_q80 n can = refl

-- The header of a payload
abbrev pub header_for : ℕ → ℕ → ℕ → FloatType → ℕ → ℕ → List ℕ → Header
header_for seq_position batch_index slice_id wire chunk flags payload = record {
  seq_position = seq_position;
  batch_index = batch_index;
  slice_id = slice_id;
  dtype = type_number wire;
  payload_bytes = length payload;
  total_payload_bytes = length payload;
  stream_chunk_bytes = chunk;
  flags = flags;
  checksum = calculate_checksum payload wire;
}

-- What a mark without floats leaves behind.
abbrev pub marked : Communicator → ℕ → Communicator
marked c flags = record c {
  last_recv_stats = record {
    payload_bytes = 0;
    wire_bytes = 0;
    stream_chunk_bytes = 0;
    flags = flags;
  };
}

module _ (fl : Floats) (sized : IsSized fl) (c : Communicator)
    (socket seq_position batch_index slice_id chunk flags : ℕ) (wire : FloatType)
    (buffer : List ℕ) where
  abbrev header : List ℕ → Header
  header = header_for seq_position batch_index slice_id wire chunk flags

  -- After the header, the payload comes in whole; none is a mark without floats.
  pub take_message-eq :
      (io : ℕ) (payload out : List ℕ)
      → 0 < io
      → take_message fl c socket buffer io (header payload) (payload ++ out) ≡ (
          if length payload == 0
          then received (header payload) buffer false (marked c flags) out
          else take_payload fl c socket buffer (header payload) payload out)
  unfolding take_message
  take_message-eq io payload out pos =
      rw
        (
          eq_self (length payload),
          read_payload-eq io pos (header payload) (payload ++ out),
          read_bytes-append payload out,
          and_false (not (length payload == 0)),
        )
        refl

  module _ (src out : List ℕ) (are_words : AreBelow u32 src) (can : CanCarry wire (length src))
      (aligned : length buffer % 4 ≡ 0) (room : 4 * length src ≤ length buffer) where
    kept :
        (rest : List ℕ)
        → take (length src) (words (in_memory 4 (carried fl wire src) ++ rest))
          ≡ carried fl wire src
    kept rest =
        subst
          (λ n. take n (words (in_memory 4 (carried fl wire src) ++ rest)) ≡ carried fl wire src)
          (length-carried fl sized wire src can)
          (words-in_memory (carried fl wire src) rest
            (carried-AreBelow fl sized wire src are_words))

    kept_all : take (length src) (words (in_memory 4 (carried fl wire src))) ≡ carried fl wire src
    kept_all =
        ap (take (length src))
          (words_all (carried fl wire src) (carried-AreBelow fl sized wire src are_words))
        ∙ take_all (length src) (carried fl wire src)
            (omega (arith, length-carried fl sized wire src can))

    pub take_full-eq :
        (bit_and flags flag_delta == 0) ≡ true
        → take_payload fl c socket buffer (header (encoded fl wire src)) (encoded fl wire src) out
          ≡ received
              (header (encoded fl wire src))
              (overwrite (in_memory 4 (carried fl wire src)) buffer)
              false
              (after_receive c socket
                (carried fl wire src)
                (length src)
                (header (encoded fl wire src)))
              out
    unfolding take_payload take_full
    take_full-eq full =
        rw
          (
            type_of_number-type_number wire (length src) can,
            eq_self (calculate_checksum (encoded fl wire src) wire),
            full,
            decode-encoded fl sized wire src (length buffer) can aligned room,
          )
          (ap
            (λ ws.
              received (header (encoded fl wire src))
                (overwrite (in_memory 4 (carried fl wire src)) buffer) false
                (after_receive c socket ws (length src) (header (encoded fl wire src))) out)
            (kept (drop (length (in_memory 4 (carried fl wire src))) buffer)))

    pub take_delta-eq :
        (held : List ℕ)
        → get_elem? c.prev_recv_by_socket socket ≡ some held
        → length held ≡ length src
        → (bit_and flags flag_delta == 0) ≡ false
        → take_payload fl c socket buffer (header (encoded fl wire src)) (encoded fl wire src) out
          ≡ received
              (header (encoded fl wire src))
              (overwrite (in_memory 4 (zip_with fl.plus held (carried fl wire src))) buffer)
              false
              (after_receive c socket
                (zip_with fl.plus held (carried fl wire src))
                (length src)
                (header (encoded fl wire src)))
              out
    unfolding take_payload take_delta
    take_delta-eq held known even delta =
        rw
          (
            type_of_number-type_number wire (length src) can,
            eq_self (calculate_checksum (encoded fl wire src) wire),
            delta,
            decode-encoded fl sized wire src (length buffer) can aligned room,
            aligned,
            kept_all,
            in_table c.prev_recv_by_socket socket known,
            get_or-eq c.prev_recv_by_socket socket known,
            even,
            eq_self (length src),
          )
          refl
