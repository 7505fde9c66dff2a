-- ===== src/Tokenizer/Decode.antt =====
-- `Tokenizer::detokUtf8` and `Tokenizer::decode`: the stream decoder. Its state is `strBuffer` up to
-- `strBufferPos`, the bytes received and not yet given out.
pub mod Stream
pub mod Tokens
pub mod Output
pub mod Tests
use prefill_opt.Prelude.{
  ℕ, zero, suc, ◌+◌, ◌-◌, Bool, true, false, ◌&&◌, ◌||◌, List, [], ◌∷◌, ◌++◌, Option, none, some,
  Result, ok, err, guard, ◌>>=◌, ◌>>◌, if◌then◌else◌, ltb, leb, ◌==◌, length, get_or,
}

-- `(c & 0xc0) == 0x80`, for a byte
abbrev pub is_continuation : ℕ → Bool
is_continuation c = leb 0x80 c && leb c 0xbf

-- The continuation bytes that a byte at the start of a character asks for; `none` for one that starts
-- no character.
abbrev pub expected : ℕ → Option ℕ
expected c =
    if leb c 0x7f
    then some 0
    else if leb 0xc0 c && leb c 0xdf
    then some 1
    else if leb 0xe0 c && leb c 0xef
    then some 2
    else if leb 0xf0 c && leb c 0xf7
    then some 3
    else none

-- U+FFFD
abbrev pub replacement : List ℕ
replacement = 0xef ∷ 0xbf ∷ 0xbd ∷ []

-- The variables of the loop: `done` is `utf8Buffer` up to `checkpoint`, `tail` from there to `dst`,
-- `held` is `strBuffer` from `checkpoint_src` to `src`.
pub record Loop : Type 0 where
  pub done : List ℕ
  pub tail : List ℕ
  pub held : List ℕ
  pub expect_continuation : ℕ

-- `*dst++ = *src++`, and the checkpoint if the character is complete
unfoldable pub copy : ℕ → ℕ → Loop → Loop
copy c zero l = record {
  done = l.done ++ (l.tail ++ c ∷ []);
  tail = [];
  held = [];
  expect_continuation = 0;
}
copy c (suc n) l = record {
  done = l.done;
  tail = l.tail ++ c ∷ [];
  held = l.held ++ c ∷ [];
  expect_continuation = suc n;
}

-- The branches for `expect_continuation == 0`; a byte that starts no character is skipped.
unfoldable pub first_byte : ℕ → Option ℕ → Loop → Loop
unfolding copy
first_byte c (some n) l = copy c n l
first_byte c none l = record l {
  tail = replacement;
  held = l.held ++ c ∷ [];
  expect_continuation = 0;
}

-- One byte of the source. A byte that breaks a character is read again as a first byte.
unfoldable pub byte : ℕ → ℕ → Loop → Loop
unfolding first_byte
byte zero c l = first_byte c (expected c) l
byte (suc n) c l =
    if is_continuation c
    then copy c n l
    else first_byte c (expected c) (record l { tail = replacement; expect_continuation = 0 })

-- The loop, up to the end of the buffer or a zero byte.
unfoldable pub bytes : List ℕ → Loop → Loop
bytes [] l = l
bytes (c ∷ cs) l =
    let rest = bytes cs (byte l.expect_continuation c l) in if c == 0 then l else rest

abbrev pub non_empty : List ℕ → Option (List ℕ)
non_empty [] = none
non_empty (c ∷ cs) = some (c ∷ cs)

abbrev pub fresh : Loop
fresh = record { done = []; tail = []; held = []; expect_continuation = 0 }

-- The text given out, if any, and the bytes that stay in `strBuffer`.
unfoldable pub detok_utf8 : List ℕ → Option (List ℕ) × List ℕ
detok_utf8 str_buffer = let l = bytes str_buffer fresh in (non_empty l.done, l.held)

pub data Error : Type 0 where
  buffer_full : Error

-- What `decode` reads of a `Tokenizer`. `bos_id` is `none` for -1.
pub record Decoder : Type 0 where
  pub vocab : List (List ℕ)
  pub bos_id : Option ℕ
  pub eos_token_ids : List ℕ
  pub str_buffer_size : ℕ

unfoldable pub is_eos : List ℕ → ℕ → Bool
is_eos [] token = false
is_eos (e ∷ es) token = let rest = is_eos es token in if token == e then true else rest

abbrev pub is_bos : Option ℕ → ℕ → Bool
is_bos none token = false
is_bos (some b) token = token == b

-- The text given out and the new buffer. At an end token the pending bytes are given out as they are,
-- and stay.
unfoldable pub decode : Decoder → ℕ → List ℕ → Result Error (Option (List ℕ) × List ℕ)
unfolding is_eos detok_utf8
decode t token pending =
    if is_bos t.bos_id token
    then ok (none, pending)
    else if is_eos t.eos_token_ids token
    then ok (non_empty pending, pending)
    else do
      let piece = get_or t.vocab token []
      guard (ltb (length pending + length piece + 1) t.str_buffer_size) buffer_full
      ok (detok_utf8 (pending ++ piece))
