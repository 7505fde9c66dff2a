-- ===== src/Tokenizer/Encode/Scan.antt =====
-- The loop over the text.
use mathlib.Core.List.{append_assoc}
use prefill_opt.Prelude.{
  ℕ, zero, suc, ◌+◌, ◌-◌, ◌≤◌, ◌<◌, ◌≡◌, refl, sym, ◌∙◌, ap, ap₂, arith, List, [], ◌∷◌, ◌++◌, Bool,
  true, false, none, some, Result, ok, err, Option, ◌>>◌, get_or, guard, length, drop, ◌==◌,
  length-append, Bool-cases, Option-cases, inl, inr, ◌⊎◌, starts_with,
}
use prefill_opt.Tokenizer.Encode.{
  Encoder, Error, text_left, find_special_token_start_with, special_at, emit, at_byte, regular_byte,
  scan,
}
use prefill_opt.Tokenizer.Decode.Tokens.{pieces}

-- What the search promises: the token that it finds has the word that was asked for.
abbrev pub IsSearch : List (List ℕ) → (List ℕ → Option ℕ) → Type 0
IsSearch vocab find = (piece : List ℕ) (id : ℕ) → find piece ≡ some id → get_or vocab id [] ≡ piece

-- Every byte of a text is a token on its own.
abbrev pub HasBytes : (List ℕ → Option ℕ) → List ℕ → Type 0
HasBytes find [] = Unit
HasBytes find (c ∷ cs) = ((id : ℕ) × (find (c ∷ []) ≡ some id)) × HasBytes find cs

-- A text starts with the words that it is found to start with.
pub starts_with-append :
    (word text : List ℕ) → starts_with word text ≡ true → word ++ drop (length word) text ≡ text
starts_with-append [] text h = refl
starts_with-append (w ∷ ws) [] h = cc
starts_with-append (w ∷ ws) (c ∷ cs) h =
    ap₂ ◌∷◌ (ground (arith, h)) (starts_with-append ws cs (ground (arith, h)))

special-prefix :
    (vocab : List (List ℕ)) (tokens text : List ℕ) {id : ℕ}
    → find_special_token_start_with vocab tokens text ≡ some id
    → get_or vocab id [] ++ drop (length (get_or vocab id [])) text ≡ text
unfolding find_special_token_start_with
special-prefix vocab [] text h = cc
special-prefix vocab (t ∷ ts) text {id} h =
    elim (Bool-cases (starts_with (get_or vocab t []) text)) [
      | inl y ↦
          let e : t ≡ id = ground (arith, y, h) in
          rw (sym e) (starts_with-append (get_or vocab t []) text y)
      | inr n ↦ special-prefix vocab ts text (ground (arith, n, h))
    ]

emit-ok :
    (id : ℕ) (r : Result Error (List ℕ)) {tokens : List ℕ}
    → emit id r ≡ ok tokens
    → (rest : List ℕ) × (r ≡ ok rest) × (tokens ≡ id ∷ rest)
emit-ok id (ok rest) h = (rest, refl, cc)
emit-ok id (err e) h = cc

pub regular_byte-ok :
    (find : List ℕ → Option ℕ) (t : Encoder) (c : ℕ) (buffer : List ℕ)
    (next : ℕ → List ℕ → Result Error (List ℕ)) {tokens : List ℕ}
    → regular_byte find t c buffer next ≡ ok tokens
    → ((find (buffer ++ c ∷ []) ≡ none) × (next 0 (buffer ++ c ∷ []) ≡ ok tokens))
      ⊎ ((id : ℕ) × (rest : List ℕ) × (find (buffer ++ c ∷ []) ≡ some id)
          × (next 0 [] ≡ ok rest)
          × (tokens ≡ id ∷ rest))
unfolding regular_byte
regular_byte-ok find t c buffer next h = elim (Option-cases (find (buffer ++ c ∷ []))) [
  | inl e ↦ inl (e, ground (arith, e, h))
  | inr (id, e) ↦
      let (rest, k, l) = emit-ok id (next 0 []) (ground (arith, e, h)) in inr (id, rest, e, k, l)
]

pub empty_end :
    (buffer : List ℕ) {tokens : List ℕ}
    → (guard (length buffer == 0) text_left >> ok []) ≡ ok tokens
    → (buffer ≡ []) × (tokens ≡ [])
empty_end [] h = (refl, cc)
empty_end (b ∷ bs) h = ground (arith, h)

module _ (find : List ℕ → Option ℕ) (t : Encoder) (search : IsSearch t.vocab find) where
  -- Without special tokens: what was in the buffer and the text are the words of the tokens.
  pub scan-pieces :
      (text buffer tokens : List ℕ)
      → scan find t false text 0 buffer ≡ ok tokens
      → pieces t.vocab tokens ≡ buffer ++ text
  unfolding scan at_byte regular_byte
  scan-pieces [] buffer tokens h =
      let e : (buffer ≡ []) × (tokens ≡ []) = empty_end buffer h in rw (e.0, e.1) refl
  scan-pieces (c ∷ cs) buffer tokens h =
      elim (regular_byte-ok find t c buffer (λ skip rest. scan find t false cs skip rest) h) [
        | inl (e, k) ↦ scan-pieces cs (buffer ++ c ∷ []) tokens k ∙ append_assoc buffer (c ∷ []) cs
        | inr (id, rest, e, k, l) ↦ rw l (
            rw (search (buffer ++ c ∷ []) id e) (
              ap (λ xs. (buffer ++ c ∷ []) ++ xs) (scan-pieces cs [] rest k)
              ∙ append_assoc buffer (c ∷ []) cs))
      ]

-- No word of a special token is empty.
abbrev pub HaveWords : List (List ℕ) → List ℕ → Type 0
HaveWords vocab [] = Unit
HaveWords vocab (token ∷ tokens) = (1 ≤ length (get_or vocab token [])) × HaveWords vocab tokens

special-word :
    (vocab : List (List ℕ)) (tokens text : List ℕ) {id : ℕ}
    → HaveWords vocab tokens
    → find_special_token_start_with vocab tokens text ≡ some id
    → 1 ≤ length (get_or vocab id [])
unfolding find_special_token_start_with
special-word vocab [] text w h = cc
special-word vocab (t ∷ ts) text {id} (w, ws) h =
    elim (Bool-cases (starts_with (get_or vocab t []) text)) [
      | inl y ↦ let e : t ≡ id = ground (arith, y, h) in rw (sym e) w
      | inr n ↦ special-word vocab ts text ws (ground (arith, n, h))
    ]

special_at-word :
    (t : Encoder) (special : Bool) (text : List ℕ) {id : ℕ}
    → HaveWords t.vocab t.special_vocab
    → special_at t special text ≡ some id
    → (1 ≤ length (get_or t.vocab id []))
      × (get_or t.vocab id [] ++ drop (length (get_or t.vocab id [])) text ≡ text)
special_at-word t false text w h = cc
special_at-word t true text w h =
    (special-word t.vocab t.special_vocab text w h, special-prefix t.vocab t.special_vocab text h)

word-rest :
    (word : List ℕ) (c : ℕ) (cs : List ℕ)
    → 1 ≤ length word
    → word ++ drop (length word) (c ∷ cs) ≡ c ∷ cs
    → (length word - 1 ≤ length cs) × (word ++ drop (length word - 1) cs ≡ c ∷ cs)
word-rest [] c cs p e = absurd (omega arith)
word-rest (w ∷ ws) c cs p e =
    let l : length (ws ++ drop (length ws) cs) ≡ length cs = ap length (ground (arith, e)) in
    let s : length ws + length (drop (length ws) cs) ≡ length cs =
      sym (length-append ws (drop (length ws) cs)) ∙ l in
    let k : suc (length ws) - 1 ≡ length ws = omega arith in (omega (arith, s), rw k e)

module _ (find : List ℕ → Option ℕ) (t : Encoder) (search : IsSearch t.vocab find)
    (words : HaveWords t.vocab t.special_vocab) (room : 1 < t.str_buffer_size) where
  -- Where every byte is a token, the loop ends without a failed assertion, in at most one token for
  -- each byte, and their words are the text from the byte it was to start at.
  pub scan_total :
      (special : Bool) (text : List ℕ) (skip : ℕ)
      → HasBytes find text
      → skip ≤ length text
      → (tokens : List ℕ) × (scan find t special text skip [] ≡ ok tokens)
        × (pieces t.vocab tokens ≡ drop skip text)
        × (length tokens + skip ≤ length text)
  unfolding scan at_byte regular_byte
  scan_total special [] skip b l =
      let z : skip ≡ 0 = omega arith in ([], refl, rw z refl, omega arith)
  scan_total special (c ∷ cs) (suc skip) (b, bs) l =
      let (tokens, e, p, k) = scan_total special cs skip bs (omega arith) in
      (tokens, e, p, omega arith)
  scan_total special (c ∷ cs) zero ((id, f), bs) l =
      elim (Option-cases (special_at t special (c ∷ cs))) [
        | inl n ↦
            let (tokens, e, p, k) = scan_total special cs 0 bs (omega arith) in
            (
              id ∷ tokens,
              rw (n, f, e) (ground (arith, room)),
              rw (search (c ∷ []) id f, p) refl,
              omega arith,
            )
        | inr (sp, n) ↦
            let (w1, w2) = special_at-word t special (c ∷ cs) words n in
            let (l1, l2) = word-rest (get_or t.vocab sp []) c cs w1 w2 in
            let (tokens, e, p, k) =
              scan_total special cs (length (get_or t.vocab sp []) - 1) bs l1 in
            (sp ∷ tokens, rw (n, e) (ground (arith, w1)), rw p l2, omega arith)
      ]
