-- ===== src/Tokenizer/Stops/Delta.antt =====
-- What `append` tells, and what `getDelta` gives out after it.
use prefill_opt.Prelude.{
  ℕ, zero, suc, ◌≤◌, ◌<◌, ◌≡◌, ◌≢◌, refl, ap, arith, false, List, [], ◌∷◌, ◌++◌, Option, none, some,
  ◌==◌, length, take, set, Bool-cases, inl, inr, get_elem?, c_string,
}
use prefill_opt.Tokenizer.Decode.{non_empty}
use prefill_opt.Tokenizer.Stops.{
  EosDetector, EosDetectorType, maybe_eos, eos, not_eos, Match, no_match, partial, whole,
  check_pieces, conclude, append, is_eos_token, piece_bytes, delta_at, get_delta,
}
use prefill_opt.Tokenizer.Stops.Search.{Ends, Begins, Found, check_pieces-Found, check_pieces-hit}

-- No byte is zero.
abbrev pub IsText : List ℕ → Type 0
IsText [] = Unit
IsText (c ∷ cs) = (c ≢ 0) × IsText cs

c_string-text : (cs : List ℕ) → IsText cs → c_string cs ≡ cs
unfolding c_string
c_string-text [] t = refl
c_string-text (c ∷ cs) (n, t) =
    let z : (c == 0) ≡ false = ground (arith, n) in rw (z, c_string-text cs t) refl

c_string-cut :
    (cs : List ℕ) (lo : ℕ) → IsText cs → lo < length cs → c_string (set cs lo 0) ≡ take lo cs
unfolding c_string
c_string-cut [] lo t h = absurd (omega arith)
c_string-cut (c ∷ cs) zero t h = refl
c_string-cut (c ∷ cs) (suc lo) (n, t) h =
    let z : (c == 0) ≡ false = ground (arith, n) in rw (z, c_string-cut cs lo t (omega arith)) refl

delta_whole : (cs : List ℕ) → IsText cs → delta_at cs none ≡ non_empty cs
delta_whole [] t = refl
delta_whole (c ∷ cs) t = ap some (c_string-text (c ∷ cs) t)

delta_cut :
    (cs : List ℕ) (lo : ℕ)
    → IsText cs
    → lo < length cs
    → delta_at (set cs lo 0) (some lo) ≡ non_empty (take lo cs)
delta_cut [] lo t h = absurd (omega arith)
delta_cut (c ∷ cs) zero t h = refl
delta_cut (c ∷ cs) (suc lo) t h = ap some (c_string-cut (c ∷ cs) (suc lo) t h)

-- What `append` tells of a buffer.
abbrev pub Told : EosDetector → List ℕ → EosDetectorType × EosDetector → Type 0
Told d buffer (not_eos, after) = (after.buffer ≡ buffer) × (get_delta after ≡ non_empty buffer)
Told d buffer (maybe_eos, after) =
    (after.buffer ≡ buffer)
    × ((s : ℕ) × (piece : List ℕ) × (lo : ℕ) × (get_elem? d.pieces s ≡ some piece)
        × (lo ≤ d.padding_left)
        × Begins piece buffer lo)
Told d buffer (eos, after) =
    (s : ℕ) × (piece : List ℕ) × (lo : ℕ) × (get_elem? d.pieces s ≡ some piece)
    × (lo ≤ d.padding_left)
    × Ends piece d.padding_right buffer lo
    × (get_delta after ≡ non_empty (take lo buffer))

conclude-Told :
    (d : EosDetector) (buffer : List ℕ) (m : Match)
    → IsText buffer
    → Found d.pieces d.padding_left d.padding_right buffer m
    → Told d buffer (conclude d buffer m)
unfolding get_delta
conclude-Told d buffer no_match t f = (refl, delta_whole buffer t)
conclude-Told d buffer partial t f = (refl, f)
conclude-Told d buffer (whole lo) t (s, p, e, k, l, r) =
    (s, p, lo, e, k, r, delta_cut buffer lo t l)

-- After `append` of a token that is no stop token, on bytes without zeros: if it tells NOT_EOS, all
-- of the buffer is given out; if MAYBE_EOS, the buffer ends in the beginning of a stop word, which
-- starts within the left padding; if EOS, it ends in a stop word, which starts there and has at most
-- the right padding behind it, and what is given out is exactly what stands before the stop word.
pub append_lem :
    (d : EosDetector) (token_id : ℕ) (piece : Option (List ℕ))
    → is_eos_token d.tokens token_id ≡ false
    → IsText (d.buffer ++ piece_bytes piece)
    → Told d (d.buffer ++ piece_bytes piece) (append d token_id piece)
unfolding append
append_lem d token_id piece n t =
    let buffer : List ℕ = d.buffer ++ piece_bytes piece in
    rw n (
      conclude-Told d buffer (check_pieces d.pieces d.padding_left d.padding_right buffer) t
        (check_pieces-Found d.pieces d.padding_left d.padding_right buffer))

conclude-not_eos :
    (d : EosDetector) (buffer : List ℕ) (m : Match)
    → m ≢ no_match
    → (conclude d buffer m).0 ≢ not_eos
conclude-not_eos d buffer no_match h = λ e. h refl
conclude-not_eos d buffer partial h = λ e. cc
conclude-not_eos d buffer (whole lo) h = λ e. cc

-- When the buffer ends, from a place within the left padding on, in a stop word that is not empty
-- and at most the right padding behind it, `append` does not tell NOT_EOS.
pub stop_found :
    (d : EosDetector) (token_id : ℕ) (piece : Option (List ℕ)) (s lo : ℕ) (word : List ℕ)
    → get_elem? d.pieces s ≡ some word
    → 1 ≤ length word
    → lo ≤ d.padding_left
    → Ends word d.padding_right (d.buffer ++ piece_bytes piece) lo
    → (append d token_id piece).0 ≢ not_eos
unfolding append
stop_found d token_id piece s lo word g p h e =
    let buffer : List ℕ = d.buffer ++ piece_bytes piece in
    elim (Bool-cases (is_eos_token d.tokens token_id)) [
      | inl y ↦ rw y (λ z. cc)
      | inr n ↦ rw n (
          conclude-not_eos d buffer (check_pieces d.pieces d.padding_left d.padding_right buffer)
            (check_pieces-hit d.pieces d.padding_left d.padding_right buffer s lo word g p h e))
    ]
