-- ===== src/Pipeline/Words.antt =====
-- src/nn/nn-pipeline.cpp: headers and floats as they lie in memory.
use prefill_opt.Prelude.{
  ℕ, ◌+◌, ◌*◌, ◌^◌, ◌<◌, ◌≡◌, refl, ap₂, ◌∙◌, List, [], ◌∷◌, ◌++◌, length, take, length-append,
  arith, u32, u64,
}
use prefill_opt.Wire.Codec.{le_bytes}
use prefill_opt.Wire.Codec.Laws.{All, length-le_bytes, from_le_bytes-le_bytes}
use prefill_opt.Pipeline.{Header, header_bytes, header_of, words, halves, in_memory}

pub record IsHeader (h : Header) : Type 0 where
  pub seq_position : h.seq_position < u32
  pub batch_index : h.batch_index < u32
  pub slice_id : h.slice_id < u32
  pub dtype : h.dtype < u32
  pub payload_bytes : h.payload_bytes < u64
  pub total_payload_bytes : h.total_payload_bytes < u64
  pub stream_chunk_bytes : h.stream_chunk_bytes < u64
  pub flags : h.flags < u32
  pub checksum : h.checksum < u32

-- A header is read as it was written.
pub header_of-header_bytes : (h : Header) → IsHeader h → header_of (header_bytes h) ≡ h
unfolding header_of header_bytes le_bytes
header_of-header_bytes h v = rw (
  from_le_bytes-le_bytes 4 h.seq_position v.seq_position,
  from_le_bytes-le_bytes 4 h.batch_index v.batch_index,
  from_le_bytes-le_bytes 4 h.slice_id v.slice_id,
  from_le_bytes-le_bytes 4 h.dtype v.dtype,
  from_le_bytes-le_bytes 8 h.payload_bytes v.payload_bytes,
  from_le_bytes-le_bytes 8 h.total_payload_bytes v.total_payload_bytes,
  from_le_bytes-le_bytes 8 h.stream_chunk_bytes v.stream_chunk_bytes,
  from_le_bytes-le_bytes 4 h.flags v.flags,
  from_le_bytes-le_bytes 4 h.checksum v.checksum,
)

pub length-header_bytes : (h : Header) → length (header_bytes h) ≡ 48
unfolding header_bytes le_bytes
length-header_bytes h = refl

pub length-in_memory : (k : ℕ) (ns : List ℕ) → length (in_memory k ns) ≡ k * length ns
unfolding in_memory
length-in_memory k [] = omega arith
length-in_memory k (n ∷ ns) =
    length-append (le_bytes k n) (in_memory k ns)
    ∙ ap₂ ◌+◌ (length-le_bytes k n) (length-in_memory k ns)
    ∙ grind arith

-- `float`s and `NnFp16`s
abbrev pub AreBelow : ℕ → List ℕ → Type 0
AreBelow bound = All λ n. n < bound

pub words-in_memory :
    (ws rest : List ℕ) → AreBelow u32 ws → take (length ws) (words (in_memory 4 ws ++ rest)) ≡ ws
unfolding words in_memory le_bytes All
words-in_memory [] rest h = refl
words-in_memory (w ∷ ws) rest (b, h) =
    ap₂ (λ x y. x ∷ y) (from_le_bytes-le_bytes 4 w b) (words-in_memory ws rest h)

pub words_all : (ws : List ℕ) → AreBelow u32 ws → words (in_memory 4 ws) ≡ ws
unfolding words in_memory le_bytes All
words_all [] h = refl
words_all (w ∷ ws) (b, h) = ap₂ (λ x y. x ∷ y) (from_le_bytes-le_bytes 4 w b) (words_all ws h)

pub halves-in_memory : (hs : List ℕ) → AreBelow (2 ^ 16) hs → halves (in_memory 2 hs) ≡ hs
unfolding halves in_memory le_bytes All
halves-in_memory [] h = refl
halves-in_memory (n ∷ ns) (b, h) =
    ap₂ (λ x y. x ∷ y) (from_le_bytes-le_bytes 2 n b) (halves-in_memory ns h)
