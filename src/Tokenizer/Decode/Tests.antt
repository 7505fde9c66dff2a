-- ===== src/Tokenizer/Decode/Tests.antt =====
-- Runs of the stream decoder, and the theorems on a character cut in two.
use prefill_opt.Prelude.{◌≡◌, refl, arith, [], ◌∷◌, ◌++◌, none, some, ok}
use prefill_opt.Tokenizer.Decode.{
  Decoder, decode, detok_utf8, bytes, byte, first_byte, copy, is_eos, replacement,
}
use prefill_opt.Tokenizer.Decode.Tokens.{decode_all, decode_text_lem}

-- What a run computes with.
program : Unit {0}
unfolding decode detok_utf8 bytes byte first_byte copy decode_all is_eos
program = tt

-- "h", the two halves of "é", and the end token
abbrev small : Decoder
small = record {
  vocab = (0x68 ∷ []) ∷ (0xc3 ∷ []) ∷ (0xa9 ∷ []) ∷ [];
  bos_id = none;
  eos_token_ids = 3 ∷ [];
  str_buffer_size = 11;
}

half : decode small 1 [] ≡ ok (none, 0xc3 ∷ [])
unfolding program
half = refl

broken : detok_utf8 (0xc3 ∷ 0x68 ∷ []) ≡ (some (replacement ++ (0x68 ∷ [])), [])
unfolding program
broken = refl

decode_text_lem_example : decode_all small (0 ∷ 1 ∷ 2 ∷ []) [] ≡ ok (0x68 ∷ 0xc3 ∷ 0xa9 ∷ [], [])
unfolding program
decode_text_lem_example =
    decode_text_lem small (0 ∷ 1 ∷ 2 ∷ [])
      (refl, refl, omega arith, (refl, refl, omega arith, (refl, refl, omega arith, tt))) refl
