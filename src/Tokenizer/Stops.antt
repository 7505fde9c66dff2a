-- ===== src/Tokenizer/Stops.antt =====
-- `EosDetector` of src/tokenizer.cpp: the search for stop words in the pieces that come out of the
-- decoder. `buffer` is the first `bufferPos` bytes of the source's buffer; `eos_pos` is `none` for -1.
pub mod Search
pub mod Delta
mod Tests
use prefill_opt.Prelude.{
  ℕ, zero, suc, ◌+◌, ◌-◌, Bool, true, false, ◌||◌, List, [], ◌∷◌, ◌++◌, Option, none, some,
  if◌then◌else◌, ltb, leb, ◌==◌, min, length, take, drop, set, c_string, starts_with,
}

-- `EosDetectorType`
pub data EosDetectorType : Type 0 where
  maybe_eos eos not_eos : EosDetectorType

pub record EosDetector : Type 0 where
  pub tokens : List ℕ
  pub pieces : List (List ℕ)
  pub padding_left : ℕ
  pub padding_right : ℕ
  pub buffer : List ℕ
  pub eos_pos : Option ℕ

unfoldable pub is_eos_token : List ℕ → ℕ → Bool
is_eos_token [] token = false
is_eos_token (e ∷ es) token = let rest = is_eos_token es token in if token == e then true else rest

-- What the search has found: nothing, the beginning of a stop word, or one that starts at a place.
pub data Match : Type 0 where
  no_match partial : Match
  whole : ℕ → Match

abbrev pub or_else : Match → Match → Match
or_else no_match next = next
or_else partial next = partial
or_else (whole lo) next = whole lo

-- A stop word at `lo`. Where `lo` is past the end the source's `n` is negative, and is skipped as
-- a large unsigned number.
unfoldable pub check_at : List ℕ → ℕ → List ℕ → ℕ → Match
check_at piece padding_right buffer lo =
    let n : ℕ = length buffer - lo in
    if leb (length buffer) lo || ltb (length piece + padding_right) n
    then no_match
    else if starts_with (take n piece) (drop lo buffer)
    then (if leb (length piece) n then whole lo else partial)
    else no_match

-- `for (lo = 0; lo <= paddingLeft; lo++)`, with the places still to try in `rest`
unfoldable pub check_from : List ℕ → ℕ → List ℕ → ℕ → ℕ → Match
check_from piece padding_right buffer lo zero = no_match
check_from piece padding_right buffer lo (suc rest) =
    or_else (check_at piece padding_right buffer lo)
      (check_from piece padding_right buffer (lo + 1) rest)

-- `for (s = 0; s < nTokens; s++)`
unfoldable pub check_pieces : List (List ℕ) → ℕ → ℕ → List ℕ → Match
check_pieces [] padding_left padding_right buffer = no_match
check_pieces (piece ∷ pieces) padding_left padding_right buffer =
    let rest = check_pieces pieces padding_left padding_right buffer in
    if ltb (length piece + padding_left + padding_right) (length buffer)
    then rest
    else or_else (check_from piece padding_right buffer 0 (padding_left + 1)) rest

abbrev pub piece_bytes : Option (List ℕ) → List ℕ
piece_bytes none = []
piece_bytes (some piece) = piece

abbrev pub conclude : EosDetector → List ℕ → Match → EosDetectorType × EosDetector
conclude d buffer no_match = (not_eos, record d { buffer = buffer; eos_pos = none })
conclude d buffer partial = (maybe_eos, record d { buffer = buffer; eos_pos = none })
conclude d buffer (whole lo) = (eos, record d { buffer = set buffer lo 0; eos_pos = some lo })

unfoldable pub append : EosDetector → ℕ → Option (List ℕ) → EosDetectorType × EosDetector
append d token_id piece =
    let buffer : List ℕ = d.buffer ++ piece_bytes piece in
    if is_eos_token d.tokens token_id
    then (eos, record d { buffer = buffer; eos_pos = some (length buffer) })
    else conclude d buffer (check_pieces d.pieces d.padding_left d.padding_right buffer)

abbrev pub delta_at : List ℕ → Option ℕ → Option (List ℕ)
delta_at [] eos_pos = none
delta_at (c ∷ cs) none = some (c_string (c ∷ cs))
delta_at (c ∷ cs) (some zero) = none
delta_at (c ∷ cs) (some (suc p)) = some (c_string (c ∷ cs))

unfoldable pub get_delta : EosDetector → Option (List ℕ)
unfolding c_string
get_delta d = delta_at d.buffer d.eos_pos

unfoldable pub reset : EosDetector → EosDetector
reset d = record d { buffer = [] }
