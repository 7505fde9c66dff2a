-- ===== src/Pipeline.antt =====
-- src/nn/nn-pipeline.hpp and src/nn/nn-pipeline.cpp, the transfer of activations between the stages:
-- the header and the payload on the wire. A float is its 32-bit word, and bytes in memory are read as
-- words by groups of four; float arithmetic and the conversions of src/nn/nn-quants.cpp are a
-- parameter.

pub mod Communicator
pub mod Reception
pub mod Words
pub mod Codec
pub mod Bytes
pub mod Message
pub mod Receive
pub mod Sent
pub mod Link
pub mod Stream
mod Tests
use Prim.Native.Nat.{bit_xor}
use prefill_opt.Prelude.{
  ℕ, zero, suc, ◌+◌, ◌-◌, ◌*◌, ◌/◌, ◌%◌, Bool, true, false, ◌&&◌, Result, ok, err, guard, ◌>>=◌,
  ◌>>◌, List, [], ◌∷◌, ◌++◌, map, length, take, drop, Option, some, none, ltb, leb, ◌==◌,
  if◌then◌else◌, u32_max, u32,
}
use prefill_opt.Core.{
  FloatType, f_unk, f_32, f_16, f_q40, f_q80, q40_block_size, q80_block_size, q40_block_bytes,
  q80_block_bytes,
}
use prefill_opt.Sockets.{SocketError}
use prefill_opt.Wire.Codec.{le_bytes, from_le_bytes}

-- `NnPipelineActivationHeader`; an enum is kept as its number.
pub record Header : Type 0 where
  pub seq_position : ℕ
  pub batch_index : ℕ
  pub slice_id : ℕ
  pub dtype : ℕ
  pub payload_bytes : ℕ
  pub total_payload_bytes : ℕ
  pub stream_chunk_bytes : ℕ
  pub flags : ℕ
  pub checksum : ℕ

-- The header as it lies in memory, where nothing needs padding.
unfoldable pub header_bytes : Header → List ℕ
header_bytes h =
    le_bytes 4 h.seq_position
    ++ (le_bytes 4 h.batch_index
        ++ (le_bytes 4 h.slice_id
            ++ (le_bytes 4 h.dtype
                ++ (le_bytes 8 h.payload_bytes
                    ++ (le_bytes 8 h.total_payload_bytes
                        ++ (le_bytes 8 h.stream_chunk_bytes
                            ++ (le_bytes 4 h.flags ++ le_bytes 4 h.checksum)))))))

abbrev pub member : ℕ → ℕ → List ℕ → ℕ
member offset size bytes = from_le_bytes (take size (drop offset bytes))

unfoldable pub header_of : List ℕ → Header
header_of bytes = record {
  seq_position = member 0 4 bytes;
  batch_index = member 4 4 bytes;
  slice_id = member 8 4 bytes;
  dtype = member 12 4 bytes;
  payload_bytes = member 16 8 bytes;
  total_payload_bytes = member 24 8 bytes;
  stream_chunk_bytes = member 32 8 bytes;
  flags = member 40 4 bytes;
  checksum = member 44 4 bytes;
}

-- `sizeof(NnPipelineActivationHeader)`
abbrev pub header_size : ℕ
header_size = 48

-- `PIPELINE_FLAG_CHUNKED`, `PIPELINE_FLAG_DELTA` and `PIPELINE_FLAG_STAGE_SKIP_BYPASS`
abbrev pub flag_chunked : ℕ
flag_chunked = 1

abbrev pub flag_delta : ℕ
flag_delta = 2

abbrev pub flag_stage_skip_bypass : ℕ
flag_stage_skip_bypass = 4

-- The numbers of `NnFloatType`
unfoldable pub type_number : FloatType → ℕ
type_number f_unk = u32_max
type_number f_32 = 0
type_number f_16 = 1
type_number f_q40 = 2
type_number f_q80 = 3

unfoldable pub type_of_number : ℕ → FloatType
type_of_number zero = f_32
type_of_number (suc zero) = f_16
type_of_number (suc (suc zero)) = f_q40
type_of_number (suc (suc (suc zero))) = f_q80
type_of_number _ = f_unk

-- Memory read as floats, and as halves; what is left at the end is no float.
unfoldable pub words : List ℕ → List ℕ
words (a ∷ b ∷ c ∷ d ∷ bytes) = from_le_bytes (a ∷ b ∷ c ∷ d ∷ []) ∷ words bytes
words _ = []

unfoldable pub halves : List ℕ → List ℕ
halves (a ∷ b ∷ bytes) = from_le_bytes (a ∷ b ∷ []) ∷ halves bytes
halves _ = []

-- Numbers of `size` bytes as they lie in memory.
unfoldable pub in_memory : ℕ → List ℕ → List ℕ
in_memory size [] = []
in_memory size (n ∷ numbers) = le_bytes size n ++ in_memory size numbers

-- The arithmetic of floats and the conversions. A quantizer takes floats and gives the bytes of
-- blocks.
pub record Floats : Type 0 where
  pub plus : ℕ → ℕ → ℕ
  pub minus : ℕ → ℕ → ℕ
  pub f32_to_f16 : ℕ → ℕ
  pub f16_to_f32 : ℕ → ℕ
  pub quantize_q80 : List ℕ → List ℕ
  pub dequantize_q80 : List ℕ → List ℕ
  pub quantize_q40 : List ℕ → List ℕ
  pub dequantize_q40 : List ℕ → List ℕ

-- The exceptions that leave the two functions.
pub data PipelineError : Type 0 where
  invalid_target invalid_source invalid_source_bytes unsupported_dtype last_stage first_stage :
      PipelineError
  socket_error : SocketError → PipelineError

-- Quantized blocks want whole floats and whole blocks.
abbrev pub fits_blocks : ℕ → Bool
fits_blocks src_bytes = if src_bytes % 4 == 0 then (src_bytes / 4) % q80_block_size == 0 else false

unfoldable pub select_wire_dtype : FloatType → ℕ → FloatType
select_wire_dtype f_q40 src_bytes = if fits_blocks src_bytes then f_q40 else f_16
select_wire_dtype f_q80 src_bytes = if fits_blocks src_bytes then f_q80 else f_16
select_wire_dtype requested src_bytes = requested

-- Each of the four words overwrites the one before.
unfoldable pub checksum_words : ℕ → ℕ → List ℕ → ℕ
checksum_words i sum [] = sum
checksum_words i sum (w ∷ ws) = checksum_words (i + 1) (bit_xor w (i + 1)) ws

abbrev pub is_f32 : FloatType → Bool
is_f32 f_32 = true
is_f32 _ = false

-- `calculateChecksum`, which is an `NnUint`
unfoldable pub calculate_checksum : List ℕ → FloatType → ℕ
calculate_checksum bytes dtype =
    (if is_f32 dtype && leb 16 (length bytes)
      then checksum_words 0 0 (take 4 (words bytes))
      else from_le_bytes (take (if ltb (length bytes) 4 then length bytes else 4) bytes))
    % u32

module _ (fl : Floats) where
  open fl use {f32_to_f16, f16_to_f32, quantize_q80, dequantize_q80, quantize_q40, dequantize_q40}

  unfoldable pub encode_words : FloatType → List ℕ → Result PipelineError (List ℕ)
  encode_words f_16 floats = ok (in_memory 2 (map f32_to_f16 floats))
  encode_words f_q80 floats = ok (quantize_q80 floats)
  encode_words f_q40 floats = ok (quantize_q40 floats)
  encode_words _ floats = err unsupported_dtype

  unfoldable pub encode_from_f32 : List ℕ → FloatType → Result PipelineError (List ℕ)
  unfolding encode_words
  encode_from_f32 src f_32 = ok src
  encode_from_f32 src dtype = do
    guard (length src % 4 == 0) invalid_source_bytes
    encode_words dtype (words src)

  -- What is written to the start of the destination, and how many floats it is.
  unfoldable pub decode_to_f32 : List ℕ → FloatType → ℕ → Option (List ℕ × ℕ)
  decode_to_f32 wire f_32 dst_bytes =
      if leb (length wire) dst_bytes then some (wire, length wire / 4) else none
  decode_to_f32 wire f_16 dst_bytes =
      let n = length wire / 2 in
      if (dst_bytes % 4 == 0) && (length wire % 2 == 0) && leb n (dst_bytes / 4)
      then some (in_memory 4 (map f16_to_f32 (halves wire)), n)
      else none
  decode_to_f32 wire f_q80 dst_bytes =
      let n = length wire / q80_block_bytes * q80_block_size in
      if (dst_bytes % 4 == 0) && (length wire % q80_block_bytes == 0) && leb n (dst_bytes / 4)
      then some (in_memory 4 (dequantize_q80 wire), n)
      else none
  decode_to_f32 wire f_q40 dst_bytes =
      let n = length wire / q40_block_bytes * q40_block_size in
      if (dst_bytes % 4 == 0) && (length wire % q40_block_bytes == 0) && leb n (dst_bytes / 4)
      then some (in_memory 4 (dequantize_q40 wire), n)
      else none
  decode_to_f32 wire f_unk dst_bytes = none
