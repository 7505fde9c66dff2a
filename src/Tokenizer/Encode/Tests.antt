-- ===== src/Tokenizer/Encode/Tests.antt =====
-- Runs of the encoder over the words "a", "b", "ab" and "<s>", and the theorems there.
use prefill_opt.Prelude.{
  ℕ, zero, suc, ◌≤◌, ◌<◌, ◌≡◌, refl, arith, List, [], ◌∷◌, ◌++◌, none, some, ok, err, length,
  Option, Bool, true, false, ltb, ◌==◌, ◌&&◌, if◌then◌else◌, get_or, ◌⊎◌, inl, inr,
}
use prefill_opt.Tokenizer.Encode.{
  Encoder, encode, scan, at_byte, regular_byte, merge_loop, merge_at, best_pair, best_after,
  consider, pair_token, find_special_token_start_with, text_left,
}
use prefill_opt.Tokenizer.Encode.Scan.{IsSearch}
use prefill_opt.Tokenizer.Encode.Merge.{Fits, AreMerged}
use prefill_opt.Tokenizer.Encode.Text.{encode_lem, decode-encode, IsText}
use prefill_opt.Tokenizer.Decode.{Decoder, is_eos}
use prefill_opt.Tokenizer.Decode.Tokens.{decode_all, pieces}

-- What a run computes with.
program : Unit {0}
unfolding encode scan at_byte regular_byte merge_loop merge_at best_pair best_after consider
    pair_token find_special_token_start_with
program = tt

abbrev words : List (List ℕ)
words = (97 ∷ []) ∷ (98 ∷ []) ∷ (97 ∷ 98 ∷ []) ∷ (60 ∷ 115 ∷ 62 ∷ []) ∷ []

abbrev small : Encoder
small = record {
  vocab = words;
  special_vocab = 3 ∷ [];
  bos_id = some 3;
  add_bos = true;
  str_buffer_size = 11;
}

abbrev reader : Decoder
reader = record { vocab = words; bos_id = some 3; eos_token_ids = 4 ∷ []; str_buffer_size = 11 }

abbrev find : List ℕ → Option ℕ
find [] = none
find (c ∷ []) = if c == 97 then some 0 else if c == 98 then some 1 else none
find (c ∷ d ∷ []) = if (c == 97) && (d == 98) then some 2 else none
find (c ∷ d ∷ e ∷ cs) = none

abbrev gt : ℕ → ℕ → Bool
gt a b = ltb b a

merges_pairs : encode find gt 0 suc small (97 ∷ 98 ∷ 97 ∷ 98 ∷ []) true true ≡ ok (3 ∷ 2 ∷ 2 ∷ [])
unfolding program
merges_pairs = refl

special_word :
    encode find gt 0 suc small (98 ∷ 60 ∷ 115 ∷ 62 ∷ 97 ∷ []) false true ≡ ok (1 ∷ 3 ∷ 0 ∷ [])
unfolding program
special_word = refl

unknown_byte : encode find gt 0 suc small (98 ∷ 60 ∷ []) false false ≡ err text_left
unfolding program
unknown_byte = refl

find_one : (c id : ℕ) → find (c ∷ []) ≡ some id → ((c ≡ 97) × (id ≡ 0)) ⊎ ((c ≡ 98) × (id ≡ 1))
find_one c id h = ground (arith, h)

find_two : (c d id : ℕ) → find (c ∷ d ∷ []) ≡ some id → (c ≡ 97) × (d ≡ 98) × (id ≡ 2)
find_two c d id h = ground (arith, h)

find-IsSearch : IsSearch words find
find-IsSearch [] id h = cc
find-IsSearch (c ∷ []) id h = elim (find_one c id h) [
  | inl (p, q) ↦ rw (p, q) refl
  | inr (p, q) ↦ rw (p, q) refl
]
find-IsSearch (c ∷ d ∷ []) id h = let (p, q, r) = find_two c d id h in rw (p, q, r) refl
find-IsSearch (c ∷ d ∷ e ∷ cs) id h = cc

words-length : (a : ℕ) → length (get_or words a []) ≤ 3
words-length zero = omega arith
words-length (suc zero) = omega arith
words-length (suc (suc zero)) = omega arith
words-length (suc (suc (suc zero))) = omega arith
words-length (suc (suc (suc (suc a)))) = omega arith

small-Fits : Fits small
small-Fits a b = omega (arith, words-length a, words-length b)

find-lt : (piece : List ℕ) (id : ℕ) → find piece ≡ some id → id < 3
find-lt [] id h = cc
find-lt (c ∷ []) id h = ground (arith, h)
find-lt (c ∷ d ∷ []) id h = ground (arith, h)
find-lt (c ∷ d ∷ e ∷ cs) id h = cc

find-IsText : (piece : List ℕ) (id : ℕ) → find piece ≡ some id → IsText reader id
unfolding is_eos
find-IsText piece id h =
    let l : id < 3 = find-lt piece id h in
    (ground (arith, l), ground (arith, l), omega (arith, words-length id))

encode_lem_example :
    (tokens : List ℕ) × (encode find gt 0 suc small (97 ∷ 98 ∷ []) true true ≡ ok tokens)
    × (pieces words tokens ≡ pieces words (3 ∷ []) ++ 97 ∷ 98 ∷ [])
    × AreMerged find gt 0 suc small tokens
    × (length tokens ≤ 3)
encode_lem_example =
    encode_lem find gt 0 suc small (97 ∷ 98 ∷ []) true true find-IsSearch
      ((0, refl), ((1, refl), tt)) (omega arith, tt) small-Fits (omega arith)

decode-encode_example :
    (tokens : List ℕ) × (encode find gt 0 suc small (97 ∷ 98 ∷ []) false false ≡ ok tokens)
    × (decode_all reader tokens [] ≡ ok (97 ∷ 98 ∷ [], []))
decode-encode_example =
    decode-encode find gt 0 suc small reader (97 ∷ 98 ∷ []) refl find-IsSearch
      ((0, refl), ((1, refl), tt)) (omega arith, tt) small-Fits (omega arith) find-IsText refl
