-- ===== src/Tokenizer/Encode/Merge.antt =====
-- The loop that merges pairs.
use mathlib.Core.List.{append_assoc}
use prefill_opt.Prelude.{
  ℕ, zero, suc, ◌+◌, ◌-◌, ◌≤◌, ◌<◌, ◌≡◌, refl, sym, ◌∙◌, ap, arith, List, [], ◌∷◌, ◌++◌, Bool,
  false, none, some, ok, Option, get_or, length, take, Bool-cases, Option-cases, inl, inr, take_all,
  length-append,
}
use prefill_opt.Tokenizer.Encode.{
  Encoder, merge_at, pair_token, consider, best_after, best_pair, merge_loop,
}
use prefill_opt.Tokenizer.Encode.Scan.{IsSearch}
use prefill_opt.Tokenizer.Decode.Tokens.{pieces}

-- Two words fit in `strBuffer` with the zero behind them.
abbrev pub Fits : Encoder → Type 0
Fits t =
    (a b : ℕ) → length (get_or t.vocab a []) + length (get_or t.vocab b []) + 1 ≤ t.str_buffer_size

-- The pair at `i` is `a`, `b`.
abbrev pub PairAt : ℕ → ℕ → ℕ → List ℕ → Type 0
PairAt a b zero (x ∷ y ∷ ts) = (x ≡ a) × (y ≡ b)
PairAt a b (suc i) (x ∷ ts) = PairAt a b i ts
PairAt a b _ ts = ⊥

pub merge-length :
    (id a b i : ℕ) (ts : List ℕ) → PairAt a b i ts → suc (length (merge_at id i ts)) ≡ length ts
unfolding merge_at
merge-length id a b zero (x ∷ y ∷ ts) p = refl
merge-length id a b zero (x ∷ []) p = absurd p
merge-length id a b zero [] p = absurd p
merge-length id a b (suc i) (x ∷ ts) p = ap suc (merge-length id a b i ts p)
merge-length id a b (suc i) [] p = absurd p

-- A merged pair has the words of the pair.
merge-pieces :
    (vocab : List (List ℕ)) (id a b i : ℕ) (ts : List ℕ)
    → PairAt a b i ts
    → get_or vocab id [] ≡ get_or vocab a [] ++ get_or vocab b []
    → pieces vocab (merge_at id i ts) ≡ pieces vocab ts
unfolding merge_at
merge-pieces vocab id a b zero (x ∷ y ∷ ts) (p, q) e =
    rw (p, q, e) (append_assoc (get_or vocab a []) (get_or vocab b []) (pieces vocab ts))
merge-pieces vocab id a b zero (x ∷ []) p e = absurd p
merge-pieces vocab id a b zero [] p e = absurd p
merge-pieces vocab id a b (suc i) (x ∷ ts) p e =
    ap (λ xs. get_or vocab x [] ++ xs) (merge-pieces vocab id a b i ts p e)
merge-pieces vocab id a b (suc i) [] p e = absurd p

some-none : {p : ℕ × ℕ} → some p ≡ none → ⊥
some-none h = cc

module _ (find : List ℕ → Option ℕ) {S : Type 0} (gt : S → S → Bool) (lowest : S) (score : ℕ → S)
    (t : Encoder) where
  -- No pair of neighbours, from the token `a` on, has a merge that beats the lowest score.
  abbrev pub NoPair : ℕ → List ℕ → Type 0
  NoPair a [] = Unit
  NoPair a (b ∷ ts) =
      ((id : ℕ) → pair_token find t a b ≡ some id → gt (score id) lowest ≡ false) × NoPair b ts

  abbrev pub AreMerged : List ℕ → Type 0
  AreMerged [] = Unit
  AreMerged (a ∷ ts) = NoPair a ts

  -- What has been found, if anything, is a pair of the list and its token.
  abbrev pub Found : List ℕ → Option (ℕ × ℕ) → Type 0
  Found all none = Unit
  Found all (some (id, i)) =
      (a : ℕ) × (b : ℕ) × PairAt a b i all × (pair_token find t a b ≡ some id)

  consider-Found :
      (all : List ℕ) (i a b : ℕ) (o : Option ℕ) (best : S × Option (ℕ × ℕ))
      → PairAt a b i all
      → pair_token find t a b ≡ o
      → Found all best.1
      → Found all (consider find gt lowest score i o best).1
  unfolding consider
  consider-Found all i a b none best p e f = f
  consider-Found all i a b (some id) best p e f = elim (Bool-cases (gt (score id) best.0)) [
    | inl y ↦ rw y (a, b, p, e)
    | inr n ↦ rw n f
  ]

  after-Found :
      (all : List ℕ) (i a : ℕ) (ts : List ℕ) (best : S × Option (ℕ × ℕ))
      → ((x y j : ℕ) → PairAt x y j (a ∷ ts) → PairAt x y (i + j) all)
      → Found all best.1
      → Found all (best_after find gt lowest score t i a ts best).1
  unfolding best_after
  after-Found all i a [] best p f = f
  after-Found all i a (b ∷ ts) best p f =
      let z : i + 0 ≡ i = omega arith in
      after-Found all (i + 1) b ts (consider find gt lowest score i (pair_token find t a b) best)
        (λ x y j q. let s : i + 1 + j ≡ i + suc j = omega arith in rw s (p x y (suc j) q))
        (consider-Found all i a b (pair_token find t a b) best (rw z at (p a b 0 (refl, refl))) refl
          f)

  consider-none :
      (i : ℕ) (o : Option ℕ) (best : S × Option (ℕ × ℕ))
      → (consider find gt lowest score i o best).1 ≡ none
      → (consider find gt lowest score i o best ≡ best)
        × ((id : ℕ) → o ≡ some id → gt (score id) best.0 ≡ false)
  unfolding consider
  consider-none i none best h = (refl, λ id e. cc)
  consider-none i (some id) best h = elim (Bool-cases (gt (score id) best.0)) [
    | inl y ↦
        (let k : ◌≡◌ {A = Option (ℕ × ℕ)} (some (id, i)) none = rw y at h in absurd (some-none k))
    | inr n ↦ (rw n refl, λ j e. let q : id ≡ j = cc in rw (sym q) n)
  ]

  after-none :
      (i a : ℕ) (ts : List ℕ) (best : S × Option (ℕ × ℕ))
      → (best_after find gt lowest score t i a ts best).1 ≡ none
      → best.1 ≡ none
  unfolding best_after
  after-none i a [] best h = h
  after-none i a (b ∷ ts) best h =
      let o : Option ℕ = pair_token find t a b in
      let k = after-none (i + 1) b ts (consider find gt lowest score i o best) h in
      let (e, r) = consider-none i o best k in rw e at k

  after-NoPair :
      (i a : ℕ) (ts : List ℕ) (best : S × Option (ℕ × ℕ))
      → (best_after find gt lowest score t i a ts best).1 ≡ none
      → best.0 ≡ lowest
      → NoPair a ts
  unfolding best_after
  after-NoPair i a [] best h l = tt
  after-NoPair i a (b ∷ ts) best h l =
      let o : Option ℕ = pair_token find t a b in
      let k = after-none (i + 1) b ts (consider find gt lowest score i o best) h in
      let (e, r) = consider-none i o best k in
      (
        λ id f. rw l at (r id f),
        after-NoPair (i + 1) b ts (consider find gt lowest score i o best) h (rw e l),
      )

  pub best-Found : (tokens : List ℕ) → Found tokens (best_pair find gt lowest score t tokens).1
  unfolding best_pair
  best-Found [] = tt
  best-Found (a ∷ ts) =
      after-Found (a ∷ ts) 0 a ts (lowest, none)
        (λ x y j p. let z : 0 + j ≡ j = omega arith in rw z p) tt

  best-AreMerged :
      (tokens : List ℕ) → (best_pair find gt lowest score t tokens).1 ≡ none → AreMerged tokens
  unfolding best_pair
  best-AreMerged [] h = tt
  best-AreMerged (a ∷ ts) h = after-NoPair 0 a ts (lowest, none) h refl

module _ (find : List ℕ → Option ℕ) {S : Type 0} (gt : S → S → Bool) (lowest : S) (score : ℕ → S)
    (t : Encoder) (search : IsSearch t.vocab find) (fits : Fits t) where
  pair_token-word :
      (a b id : ℕ)
      → pair_token find t a b ≡ some id
      → get_or t.vocab id [] ≡ get_or t.vocab a [] ++ get_or t.vocab b []
  unfolding pair_token
  pair_token-word a b id h =
      let w : List ℕ = get_or t.vocab a [] ++ get_or t.vocab b [] in
      let l : length w ≤ t.str_buffer_size - 1 =
        (let f : length (get_or t.vocab a []) + length (get_or t.vocab b []) + 1
              ≤ t.str_buffer_size =
            fits a b in
          omega (arith, f, length-append (get_or t.vocab a []) (get_or t.vocab b []))) in
      search (take (t.str_buffer_size - 1) w) id h ∙ take_all (t.str_buffer_size - 1) w l

  -- With more fuel than tokens the loop ends; the words are as before, there are no more tokens, and
  -- no pair of neighbours is left that could be merged.
  pub merge_loop_lem :
      (fuel : ℕ) (tokens : List ℕ)
      → length tokens < fuel
      → (merged : List ℕ) × (merge_loop find gt lowest score t fuel tokens ≡ ok merged)
        × (pieces t.vocab merged ≡ pieces t.vocab tokens)
        × (length merged ≤ length tokens)
        × AreMerged find gt lowest score t merged
  unfolding merge_loop
  merge_loop_lem zero tokens h = absurd (omega arith)
  merge_loop_lem (suc fuel) tokens h =
      elim (Option-cases (best_pair find gt lowest score t tokens).1) [
        | inl n ↦
            (tokens, rw n refl, refl, omega arith, best-AreMerged find gt lowest score t tokens n)
        | inr ((id, i), e) ↦
            let (a, b, p, q) = rw e at (best-Found find gt lowest score t tokens) in
            let l : suc (length (merge_at id i tokens)) ≡ length tokens =
              merge-length id a b i tokens p in
            let (merged, f, w, k, m) =
              merge_loop_lem fuel (merge_at id i tokens) (omega (arith, l)) in
            (
              merged,
              rw e f,
              w ∙ merge-pieces t.vocab id a b i tokens p (pair_token-word a b id q),
              omega (arith, l, k),
              m,
            )
      ]
