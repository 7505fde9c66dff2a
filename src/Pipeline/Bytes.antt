-- ===== src/Pipeline/Bytes.antt =====
-- src/nn/nn-pipeline.cpp: the message on the wire is the header and the payload, however it is cut into
-- chunks, and the reader takes it in whole.
use Prim.Native.Nat.{bit_and}
use prefill_opt.Prelude.{
  ℕ, zero, suc, ◌<◌, ◌≡◌, refl, ◌∙◌, subst, Bool, true, false, not, List, ◌++◌, length, ◌⊎◌, inl,
  inr, arith, u32, ok, ◌==◌, if◌then◌else◌,
}
use prefill_opt.Wire.Codec.{read_bytes}
use prefill_opt.Wire.Codec.Laws.{read_bytes-append}
use prefill_opt.Wire.Chunks.{
  net_write, net_read, write_chunks-eq, read_chunks, read_chunks-eq, write_socket,
}
use prefill_opt.Pipeline.{Header, header_bytes, header_size, flag_delta, flag_stage_skip_bypass}
use prefill_opt.Pipeline.Words.{length-header_bytes}
use prefill_opt.Pipeline.Communicator.{write_payload, header_flags}
use prefill_opt.Pipeline.Reception.{read_payload, stream_chunk}

suc-ne-zero : (n : ℕ) → (suc n == 0) ≡ false
suc-ne-zero n = ground arith

module _ (io : ℕ) (io_pos : 0 < io) where
  pub net_write-eq : (message out : List ℕ) → net_write io message out ≡ message ++ out
  unfolding net_write
  net_write-eq message out =
      write_chunks-eq write_socket (λ _ _. refl) (length message) io message out io_pos
        (omega arith)

  pub net_read-eq : (size : ℕ) (bytes : List ℕ) → net_read io size bytes ≡ read_bytes size bytes
  unfolding net_read
  net_read-eq size bytes =
      read_chunks-eq read_bytes (λ _ _. refl) size io size bytes io_pos (omega arith)

  pub write_payload-eq :
      (chunk : ℕ) (payload out : List ℕ) → write_payload io chunk payload out ≡ payload ++ out
  unfolding write_payload
  write_payload-eq zero payload out = net_write-eq payload out
  write_payload-eq (suc chunk) payload out = rw (suc-ne-zero chunk) (
      write_chunks-eq (net_write io) net_write-eq (length payload) (suc chunk) payload out
        (omega arith) (omega arith))

  pub read_payload-eq :
      (h : Header) (bytes : List ℕ) → read_payload io h bytes ≡ read_bytes h.payload_bytes bytes
  unfolding read_payload
  read_payload-eq h bytes = by_chunk (stream_chunk h)
    where
      by_chunk :
          (chunk : ℕ)
          → (if chunk == 0
              then net_read io h.payload_bytes bytes
              else read_chunks (net_read io) h.payload_bytes chunk h.payload_bytes bytes)
            ≡ read_bytes h.payload_bytes bytes
      by_chunk zero = net_read-eq h.payload_bytes bytes
      by_chunk (suc chunk) = rw (suc-ne-zero chunk) (
          read_chunks-eq (net_read io) net_read-eq h.payload_bytes (suc chunk) h.payload_bytes bytes
            (omega arith) (omega arith))

  pub read_header :
      (h : Header) (rest : List ℕ)
      → net_read io header_size (header_bytes h ++ rest) ≡ ok (header_bytes h, rest)
  read_header h rest =
      net_read-eq header_size (header_bytes h ++ rest)
      ∙ subst (λ n. read_bytes n (header_bytes h ++ rest) ≡ ok (header_bytes h, rest))
          (length-header_bytes h) (read_bytes-append (header_bytes h) rest)

-- The flags that the callers add: none, or the mark of a stage that is skipped.
abbrev pub IsExtra : ℕ → Type 0
IsExtra extra = (extra ≡ 0) ⊎ (extra ≡ flag_stage_skip_bypass)

pub delta_flag :
    (chunked delta : Bool) (extra : ℕ)
    → IsExtra extra
    → (bit_and (header_flags chunked delta extra) flag_delta == 0) ≡ not delta
unfolding header_flags
delta_flag false false extra (inl e) = rw e refl
delta_flag false false extra (inr e) = rw e refl
delta_flag false true extra (inl e) = rw e refl
delta_flag false true extra (inr e) = rw e refl
delta_flag true false extra (inl e) = rw e refl
delta_flag true false extra (inr e) = rw e refl
delta_flag true true extra (inl e) = rw e refl
delta_flag true true extra (inr e) = rw e refl

pub flags-lt :
    (chunked delta : Bool) (extra : ℕ) → IsExtra extra → header_flags chunked delta extra < u32
unfolding header_flags
flags-lt false false extra (inl e) = rw e (omega arith)
flags-lt false false extra (inr e) = rw e (omega arith)
flags-lt false true extra (inl e) = rw e (omega arith)
flags-lt false true extra (inr e) = rw e (omega arith)
flags-lt true false extra (inl e) = rw e (omega arith)
flags-lt true false extra (inr e) = rw e (omega arith)
flags-lt true true extra (inl e) = rw e (omega arith)
flags-lt true true extra (inr e) = rw e (omega arith)

pub bypass_flag :
    (chunked delta : Bool) (extra : ℕ)
    → IsExtra extra
    → (bit_and (header_flags chunked delta extra) flag_stage_skip_bypass == 0) ≡ (extra == 0)
unfolding header_flags
bypass_flag false false extra (inl e) = rw e refl
bypass_flag false false extra (inr e) = rw e refl
bypass_flag false true extra (inl e) = rw e refl
bypass_flag false true extra (inr e) = rw e refl
bypass_flag true false extra (inl e) = rw e refl
bypass_flag true false extra (inr e) = rw e refl
bypass_flag true true extra (inl e) = rw e refl
bypass_flag true true extra (inr e) = rw e refl
