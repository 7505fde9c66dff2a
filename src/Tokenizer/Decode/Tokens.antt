-- ===== src/Tokenizer/Decode/Tokens.antt =====
-- Decoding the tokens of a text, one after the other.
use mathlib.Core.List.{append_assoc, append-nil}
use prefill_opt.Prelude.{
  ℕ, ◌+◌, ◌≤◌, ◌<◌, ◌≡◌, refl, sym, ◌∙◌, ap, arith, List, [], ◌∷◌, ◌++◌, some, Result, ok, ◌>>=◌,
  get_or, lt→ltb, length, false,
}
use prefill_opt.Tokenizer.Decode.{Decoder, Error, is_bos, is_eos, decode, detok_utf8}
use prefill_opt.Tokenizer.Decode.Stream.{missing, missing-append, missing-prefix, out, detok_lem}

-- `decode` for each token in turn, with all that it gives out.
unfoldable pub decode_all : Decoder → List ℕ → List ℕ → Result Error (List ℕ × List ℕ)
decode_all t [] pending = ok ([], pending)
decode_all t (token ∷ tokens) pending = do
  (given, kept) ← decode t token pending
  (rest, last) ← decode_all t tokens kept
  ok (out given ++ rest, last)

-- The pieces of a list of tokens.
abbrev pub pieces : List (List ℕ) → List ℕ → List ℕ
pieces vocab [] = []
pieces vocab (token ∷ tokens) = get_or vocab token [] ++ pieces vocab tokens

-- Tokens that are text and whose pieces fit beside three held bytes.
abbrev pub AreText : Decoder → List ℕ → Type 0
AreText t [] = Unit
AreText t (token ∷ tokens) =
    (is_bos t.bos_id token ≡ false)
    × (is_eos t.eos_token_ids token ≡ false)
    × (length (get_or t.vocab token []) + 4 < t.str_buffer_size)
    × AreText t tokens

some-eq : {a b : ℕ} → some a ≡ some b → a ≡ b
some-eq e = cc

decode_text :
    (t : Decoder) (token : ℕ) (pending : List ℕ)
    → is_bos t.bos_id token ≡ false
    → is_eos t.eos_token_ids token ≡ false
    → length pending + length (get_or t.vocab token []) + 1 < t.str_buffer_size
    → decode t token pending ≡ ok (detok_utf8 (pending ++ get_or t.vocab token []))
unfolding decode
decode_text t token pending b e s = rw (b, e, lt→ltb _ _ s)

decode_from :
    (t : Decoder) (tokens pending : List ℕ) (m : ℕ)
    → AreText t tokens
    → length pending ≤ 3
    → missing 0 (pending ++ pieces t.vocab tokens) ≡ some m
    → (m ≡ 0 → tokens ≡ [] → pending ≡ [])
    → (o p : List ℕ) × (decode_all t tokens pending ≡ ok (o, p))
      × (o ++ p ≡ pending ++ pieces t.vocab tokens)
      × (length p ≤ 3)
      × (m ≡ 0 → p ≡ [])
unfolding decode_all
decode_from t [] pending m a l h z = ([], pending, refl, rw append-nil refl, l, λ e. z e refl)
decode_from t (token ∷ tokens) pending m a l h z =
    let piece : List ℕ = get_or t.vocab token [] in
    let rest : List ℕ = pieces t.vocab tokens in
    let buffer : List ℕ = pending ++ piece in
    let h' : missing 0 (buffer ++ rest) ≡ some m =
      ap (missing 0) (append_assoc pending piece rest) ∙ h in
    let (k, hk) = missing-prefix 0 buffer rest m h' in
    let d = detok_lem buffer k hk in
    let given : List ℕ = out (detok_utf8 buffer).0 in
    let kept : List ℕ = (detok_utf8 buffer).1 in
    let r : missing k rest ≡ some m = sym (missing-append 0 buffer rest k hk) ∙ h' in
    let r' : missing 0 (kept ++ rest) ≡ some m = missing-append 0 kept rest k (d.2) ∙ r in
    let last : m ≡ 0 → tokens ≡ [] → kept ≡ [] =
      λ e n. d.4 ((some-eq (sym (ap (λ ts. missing k (pieces t.vocab ts)) n) ∙ r)) ∙ e) in
    let (o, p, e, j, s, w) = decode_from t tokens kept m (a.3) (d.3) r' last in
    (
      given ++ o,
      p,
      rw (decode_text t token pending (a.0) (a.1) (omega (arith, a.2, l))) (rw e refl),
      append_assoc given o p
          ∙ ap (λ x. given ++ x) j
          ∙ sym (append_assoc given kept rest)
          ∙ ap (λ x. x ++ rest) (d.0)
          ∙ append_assoc pending piece rest,
      s,
      w,
    )

-- Text tokens whose pieces together are well-formed, however a character is cut between them, are
-- decoded without a failed assertion; what is given out, in order, is exactly those bytes, and
-- nothing is left in the buffer.
pub decode_text_lem :
    (t : Decoder) (tokens : List ℕ)
    → AreText t tokens
    → missing 0 (pieces t.vocab tokens) ≡ some 0
    → decode_all t tokens [] ≡ ok (pieces t.vocab tokens, [])
decode_text_lem t tokens a h =
    let (o, p, e, j, s, w) = decode_from t tokens [] 0 a (omega arith) h (λ _ _. refl) in
    let n : p ≡ [] = w refl in
    let q : o ≡ pieces t.vocab tokens = sym (append-nil o) ∙ ap (λ x. o ++ x) (sym n) ∙ j in
    e ∙ ap (λ x. ok (x, p)) q ∙ ap (λ x. ok (pieces t.vocab tokens, x)) n
