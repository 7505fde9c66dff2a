-- ===== src/Tokenizer/Encode.antt =====
-- `Tokenizer::encode` and `findSpecialTokenStartWith` of src/tokenizer.cpp: a text is cut into tokens
-- from left to right, and then pairs of tokens are merged, the best first. `findRegularToken` is
-- a binary search by the C library in a table that the library has sorted: it is the parameter
-- `find_regular_token`. The text is no null pointer. Scores are floats: their type, `>` and `-1e10` are parameters.
pub mod Scan
pub mod Merge
pub mod Text
mod Tests
use prefill_opt.Prelude.{
  ℕ, zero, suc, ◌+◌, ◌-◌, Bool, true, false, ◌&&◌, List, [], ◌∷◌, ◌++◌, Option, none, some, Result,
  ok, err, guard, ◌>>=◌, ◌>>◌, if◌then◌else◌, ltb, leb, ◌==◌, length, get_or, take, starts_with,
}

pub data Error : Type 0 where
  buffer_full text_left empty_special out_of_fuel : Error

-- What `encode` reads of a `Tokenizer`. `bos_id` is `none` for -1.
pub record Encoder : Type 0 where
  pub vocab : List (List ℕ)
  pub special_vocab : List ℕ
  pub bos_id : Option ℕ
  pub add_bos : Bool
  pub str_buffer_size : ℕ

-- The first special token that the text starts with.
unfoldable pub find_special_token_start_with : List (List ℕ) → List ℕ → List ℕ → Option ℕ
find_special_token_start_with vocab [] piece = none
find_special_token_start_with vocab (token ∷ tokens) piece =
    let rest = find_special_token_start_with vocab tokens piece in
    if starts_with (get_or vocab token []) piece then some token else rest

abbrev pub special_at : Encoder → Bool → List ℕ → Option ℕ
special_at t false text = none
special_at t true text = find_special_token_start_with t.vocab t.special_vocab text

-- `tokens[i] = id`, with the token behind it deleted
unfoldable pub merge_at : ℕ → ℕ → List ℕ → List ℕ
merge_at id zero (a ∷ b ∷ ts) = id ∷ ts
merge_at id (suc i) (a ∷ ts) = a ∷ merge_at id i ts
merge_at id _ ts = ts

-- The tokens before those of the text: `bosId`, at the start of a chat and if it is asked for.
abbrev pub bos_tokens : Option ℕ → Bool → Bool → List ℕ
bos_tokens (some id) true true = id ∷ []
bos_tokens _ _ _ = []

-- `tokens[(*nTokens)++] = id`, before the tokens to come
abbrev pub emit : ℕ → Result Error (List ℕ) → Result Error (List ℕ)
emit id (err e) = err e
emit id (ok rest) = ok (id ∷ rest)

-- What the loop does with the best pair, if there is one.
abbrev pub merge_best :
    Option (ℕ × ℕ) → List ℕ → (List ℕ → Result Error (List ℕ)) → Result Error (List ℕ)
merge_best none tokens next = ok tokens
merge_best (some (id, i)) tokens next = next (merge_at id i tokens)

module _ (find_regular_token : List ℕ → Option ℕ) where
  -- A byte of the text at which no special token starts, and the loop behind it.
  unfoldable pub regular_byte :
      Encoder → ℕ → List ℕ → (ℕ → List ℕ → Result Error (List ℕ)) → Result Error (List ℕ)
  regular_byte t c buffer next = do
    guard (ltb (length buffer + 1) t.str_buffer_size) buffer_full
    found (find_regular_token (buffer ++ c ∷ []))
    where
      found : Option ℕ → Result Error (List ℕ)
      found (some id) = emit id (next 0 [])
      found none = next 0 (buffer ++ c ∷ [])

  unfoldable pub at_byte :
      Encoder → Option ℕ → ℕ → List ℕ → (ℕ → List ℕ → Result Error (List ℕ)) → Result Error (List ℕ)
  unfolding regular_byte
  at_byte t (some id) c buffer next = do
    guard (leb 1 (length (get_or t.vocab id []))) empty_special
    emit id (next (length (get_or t.vocab id []) - 1) buffer)
  at_byte t none c buffer next = regular_byte t c buffer next

  -- The loop over the text. `skip` counts the bytes that a special token still covers, and
  -- `buffer` is `strBuffer`; the result is the tokens from here on.
  unfoldable pub scan : Encoder → Bool → List ℕ → ℕ → List ℕ → Result Error (List ℕ)
  unfolding at_byte
  scan t special [] skip buffer = do guard (length buffer == 0) text_left; ok []
  scan t special (c ∷ cs) (suc skip) buffer = scan t special cs skip buffer
  scan t special (c ∷ cs) zero buffer =
      at_byte t (special_at t special (c ∷ cs)) c buffer (λ skip rest. scan t special cs skip rest)

  -- The token that a pair makes: `snprintf` cuts the two pieces off at the size of the buffer.
  unfoldable pub pair_token : Encoder → ℕ → ℕ → Option ℕ
  pair_token t a b =
      find_regular_token (take (t.str_buffer_size - 1) (get_or t.vocab a [] ++ get_or t.vocab b []))

  module _ {S : Type 0} (gt : S → S → Bool) (lowest : S) (score : ℕ → S) where
    -- `best_score`, with `best_id` and `best_idx` if they are not -1
    abbrev pub Best : Type 0
    Best = S × Option (ℕ × ℕ)

    unfoldable pub consider : ℕ → Option ℕ → Best → Best
    consider i none best = best
    consider i (some id) best = if gt (score id) best.0 then (score id, some (id, i)) else best

    -- The loop over the pairs, from the token `a` at `i`.
    unfoldable pub best_after : Encoder → ℕ → ℕ → List ℕ → Best → Best
    best_after t i a [] best = best
    best_after t i a (b ∷ ts) best = best_after t (i + 1) b ts (consider i (pair_token t a b) best)

    unfoldable pub best_pair : Encoder → List ℕ → Best
    best_pair t [] = (lowest, none)
    best_pair t (a ∷ ts) = best_after t 0 a ts (lowest, none)

    -- `while (1)`, on fuel
    unfoldable pub merge_loop : Encoder → ℕ → List ℕ → Result Error (List ℕ)
    merge_loop t zero tokens = err out_of_fuel
    merge_loop t (suc fuel) tokens =
        merge_best (best_pair t tokens).1 tokens (λ merged. merge_loop t fuel merged)

    -- The text has at most one token for each byte, so its length and two are fuel enough.
    unfoldable pub encode : Encoder → List ℕ → Bool → Bool → Result Error (List ℕ)
    encode t text is_start add_special_tokens = do
      tokens ← scan t add_special_tokens text 0 []
      merge_loop t (length text + 2) (bos_tokens t.bos_id is_start t.add_bos ++ tokens)
