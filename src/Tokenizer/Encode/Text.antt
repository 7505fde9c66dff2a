-- ===== src/Tokenizer/Encode/Text.antt =====
-- What `encode` does with a text, and `decode` with its tokens.
use mathlib.Core.List.{append_assoc}
use prefill_opt.Prelude.{
  ℕ, zero, suc, ◌+◌, ◌-◌, ◌≤◌, ◌<◌, ◌≡◌, refl, sym, ◌∙◌, ap, arith, List, [], ◌∷◌, ◌++◌, Bool, true,
  false, none, some, Result, ok, Option, get_or, length, take, Option-cases, inl, inr,
  length-append,
}
use prefill_opt.Tokenizer.Encode.{
  Encoder, Error, merge_at, pair_token, best_pair, merge_loop, scan, at_byte, encode, bos_tokens,
}
use prefill_opt.Tokenizer.Encode.Scan.{
  IsSearch, HasBytes, HaveWords, scan_total, regular_byte-ok, empty_end,
}
use prefill_opt.Tokenizer.Encode.Merge.{Fits, AreMerged, merge_loop_lem, best-Found}
use prefill_opt.Tokenizer.Decode.{Decoder, is_bos, is_eos}
use prefill_opt.Tokenizer.Decode.Stream.{missing}
use prefill_opt.Tokenizer.Decode.Tokens.{pieces, AreText, decode_all, decode_text_lem}

pieces-append :
    (vocab : List (List ℕ)) (xs ys : List ℕ)
    → pieces vocab (xs ++ ys) ≡ pieces vocab xs ++ pieces vocab ys
pieces-append vocab [] ys = refl
pieces-append vocab (x ∷ xs) ys =
    rw (pieces-append vocab xs ys)
      (sym (append_assoc (get_or vocab x []) (pieces vocab xs) (pieces vocab ys)))

-- A token that is text for the decoder.
abbrev pub IsText : Decoder → ℕ → Type 0
IsText d id =
    (is_bos d.bos_id id ≡ false)
    × (is_eos d.eos_token_ids id ≡ false)
    × (length (get_or d.vocab id []) + 4 < d.str_buffer_size)

ok-eq : {xs ys : List ℕ} → ◌≡◌ {A = Result Error (List ℕ)} (ok xs) (ok ys) → xs ≡ ys
ok-eq h = cc

text-cons : (d : Decoder) (id : ℕ) (ts : List ℕ) → IsText d id → AreText d ts → AreText d (id ∷ ts)
text-cons d id ts (a, b, c) r = (a, b, c, r)

merge-AreText :
    (d : Decoder) (id i : ℕ) (ts : List ℕ)
    → IsText d id
    → AreText d ts
    → AreText d (merge_at id i ts)
unfolding merge_at
merge-AreText d id zero [] p r = tt
merge-AreText d id zero (x ∷ []) p r = r
merge-AreText d id zero (x ∷ y ∷ ts) p r =
    let (a, b, c, s) = r in let (a', b', c', q) = s in text-cons d id ts p q
merge-AreText d id (suc i) [] p r = tt
merge-AreText d id (suc i) (x ∷ ts) p (a, b, c, r) =
    text-cons d x (merge_at id i ts) (a, b, c) (merge-AreText d id i ts p r)

module _ (find : List ℕ → Option ℕ) {S : Type 0} (gt : S → S → Bool) (lowest : S) (score : ℕ → S)
    (t : Encoder) (d : Decoder)
    (regular : (piece : List ℕ) (id : ℕ) → find piece ≡ some id → IsText d id) where
  scan-AreText :
      (text buffer tokens : List ℕ) → scan find t false text 0 buffer ≡ ok tokens → AreText d tokens
  unfolding scan at_byte
  scan-AreText [] buffer tokens h = rw ((empty_end buffer h).1) tt
  scan-AreText (c ∷ cs) buffer tokens h =
      elim (regular_byte-ok find t c buffer (λ skip rest. scan find t false cs skip rest) h) [
        | inl (e, k) ↦ scan-AreText cs (buffer ++ c ∷ []) tokens k
        | inr (id, rest, e, k, l) ↦
            rw l (text-cons d id rest (regular (buffer ++ c ∷ []) id e) (scan-AreText cs [] rest k))
      ]

  merge_loop-AreText :
      (fuel : ℕ) (tokens merged : List ℕ)
      → merge_loop find gt lowest score t fuel tokens ≡ ok merged
      → AreText d tokens
      → AreText d merged
  unfolding merge_loop pair_token
  merge_loop-AreText zero tokens merged h r = absurd (ground (arith, h))
  merge_loop-AreText (suc fuel) tokens merged h r =
      elim (Option-cases (best_pair find gt lowest score t tokens).1) [
        | inl n ↦ let e : tokens ≡ merged = ok-eq (rw n at h) in rw (sym e) r
        | inr ((id, i), e) ↦
            let (a, b, p, q) = rw e at (best-Found find gt lowest score t tokens) in
            let k : merge_loop find gt lowest score t fuel (merge_at id i tokens) ≡ ok merged =
              rw e at h in
            merge_loop-AreText fuel (merge_at id i tokens) merged k (
              merge-AreText d id i tokens
                (regular (take (t.str_buffer_size - 1) (get_or t.vocab a [] ++ get_or t.vocab b []))
                  id q)
                r)
      ]

bos_tokens-length : (b : Option ℕ) (x y : Bool) → length (bos_tokens b x y) ≤ 1
bos_tokens-length none x y = omega arith
bos_tokens-length (some id) true true = omega arith
bos_tokens-length (some id) true false = omega arith
bos_tokens-length (some id) false y = omega arith

bos_tokens-not_start : (b : Option ℕ) (y : Bool) → bos_tokens b false y ≡ []
bos_tokens-not_start none y = refl
bos_tokens-not_start (some id) y = refl

-- `encode`, where the search finds the word it is asked for, every byte of the text is a token, no
-- special word is empty and two words fit in `strBuffer`: no assertion fails and both loops end, and
-- the words of the tokens, in order, are the word of `bosId`, if it is asked for, and then the text;
-- no two neighbours are left that could be merged; and there are at most as many tokens as bytes,
-- and one.
pub encode_lem :
    (find : List ℕ → Option ℕ) {S : Type 0} (gt : S → S → Bool) (lowest : S) (score : ℕ → S)
    (t : Encoder) (text : List ℕ) (is_start special : Bool)
    → IsSearch t.vocab find
    → HasBytes find text
    → HaveWords t.vocab t.special_vocab
    → Fits t
    → 1 < t.str_buffer_size
    → (tokens : List ℕ) × (encode find gt lowest score t text is_start special ≡ ok tokens)
      × (pieces t.vocab tokens ≡ pieces t.vocab (bos_tokens t.bos_id is_start t.add_bos) ++ text)
      × AreMerged find gt lowest score t tokens
      × (length tokens ≤ length text + 1)
unfolding encode
encode_lem find gt lowest score t text is_start special search bytes words fits room =
    let bos : List ℕ = bos_tokens t.bos_id is_start t.add_bos in
    let b : length bos ≤ 1 = bos_tokens-length t.bos_id is_start t.add_bos in
    let (scanned, e, p, k) =
      scan_total find t search words room special text 0 bytes (omega arith) in
    let l : length (bos ++ scanned) ≡ length bos + length scanned = length-append bos scanned in
    let (merged, f, w, n, m) =
      merge_loop_lem find gt lowest score t search fits (length text + 2) (bos ++ scanned)
        (omega (arith, l, b, k)) in
    (
      merged,
      rw e f,
      w ∙ pieces-append t.vocab bos scanned ∙ ap (λ xs. pieces t.vocab bos ++ xs) p,
      m,
      omega (arith, l, b, k, n),
    )

-- Decoding what was encoded: a well-formed text of bytes that are tokens, encoded without the start
-- token and special tokens, is encoded without a failed assertion and decoded to itself, and nothing
-- is left in the decoder's buffer. The two share the vocabulary; the search finds the word it is
-- asked for, and only tokens that are text for the decoder; no special word is empty, and two words
-- fit in `strBuffer`.
pub decode-encode :
    (find : List ℕ → Option ℕ) {S : Type 0} (gt : S → S → Bool) (lowest : S) (score : ℕ → S)
    (t : Encoder) (d : Decoder) (text : List ℕ)
    → d.vocab ≡ t.vocab
    → IsSearch t.vocab find
    → HasBytes find text
    → HaveWords t.vocab t.special_vocab
    → Fits t
    → 1 < t.str_buffer_size
    → ((piece : List ℕ) (id : ℕ) → find piece ≡ some id → IsText d id)
    → missing 0 text ≡ some 0
    → (tokens : List ℕ) × (encode find gt lowest score t text false false ≡ ok tokens)
      × (decode_all d tokens [] ≡ ok (text, []))
unfolding encode
decode-encode find gt lowest score t d text same search bytes words fits room regular whole =
    let b : bos_tokens t.bos_id false t.add_bos ≡ [] = bos_tokens-not_start t.bos_id t.add_bos in
    let (scanned, e, p, k) = scan_total find t search words room false text 0 bytes (omega arith) in
    let (merged, f, w, n, m) =
      merge_loop_lem find gt lowest score t search fits (length text + 2) scanned
        (omega (arith, k)) in
    let q : pieces d.vocab merged ≡ text = rw same (w ∙ p) in
    let are : AreText d merged =
      merge_loop-AreText find gt lowest score t d regular (length text + 2) scanned merged f
        (scan-AreText find gt lowest score t d regular text [] scanned e) in
    (merged, rw (e, b) f, rw q at (decode_text_lem d merged are (rw q whole)))
