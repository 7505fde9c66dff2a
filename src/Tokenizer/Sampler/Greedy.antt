-- ===== src/Tokenizer/Sampler/Greedy.antt =====
-- The greedy choice.
use prefill_opt.Prelude.{
  ℕ, zero, suc, ◌+◌, ◌<◌, ◌≡◌, refl, sym, arith, Bool, true, false, List, [], ◌∷◌, some, get_elem?,
  get_elem?-lt, length, Bool-cases, inl, inr, ℕ_discrete, ◌∙◌,
}
use prefill_opt.Tokenizer.Sampler.{better, argmax_from, sample_argmax}

-- `>` on floats that are numbers: of two, at most one is greater, and "not greater" is transitive.
pub record IsOrder {F : Type 0} (gt : F → F → Bool) : Type 0 where
  pub asym : (a b : F) → gt a b ≡ true → gt b a ≡ false
  pub chain : (a b c : F) → gt a b ≡ false → gt b c ≡ false → gt a c ≡ false

module _ {F : Type 0} (gt : F → F → Bool) (order : IsOrder gt) where
  -- The best of the first `i` values, and the first of those.
  abbrev pub IsBest : List F → ℕ → ℕ × F → Type 0
  IsBest ps i best =
      (get_elem? ps best.0 ≡ some best.1)
      × ((j : ℕ) (p : F) → j < i → get_elem? ps j ≡ some p → gt p best.1 ≡ false)
      × ((j : ℕ) (p : F) → j < best.0 → get_elem? ps j ≡ some p → gt best.1 p ≡ true)

  apart : (a b c : F) → gt a b ≡ true → gt c b ≡ false → gt a c ≡ true
  apart a b c h k = elim (Bool-cases (gt a c)) [
    | inl y ↦ y
    | inr n ↦ absurd (true-false (sym h ∙ order.chain a c b n k))
  ]
    where
      true-false : true ≡ false → ⊥
      true-false e = cc

  some-eq : {a b : F} → some a ≡ some b → a ≡ b
  some-eq e = cc

  not_above : (a : F) → gt a a ≡ false
  not_above a = elim (Bool-cases (gt a a)) [ inl y ↦ order.asym a a y | inr n ↦ n ]

  better-IsBest :
      (ps : List F) (i : ℕ) (p : F) (best : ℕ × F)
      → best.0 < i
      → get_elem? ps i ≡ some p
      → IsBest ps i best
      → IsBest ps (i + 1) (better gt i p best) × ((better gt i p best).0 < i + 1)
  better-IsBest ps i p best b g (e, f, l) = elim (Bool-cases (gt p best.1)) [
    | inl y ↦ rw y (
      (
        g,
        λ j q h k. elim (ℕ_discrete j i) [
          | yes s ↦ let r : p ≡ q = some-eq (sym g ∙ rw s at k) in rw (sym r) (not_above p)
          | no s ↦ order.chain q best.1 p (f j q (omega (arith, s, h)) k) (order.asym p best.1 y)
        ],
        λ j q h k. apart p best.1 q y (f j q h k),
      ),
      omega arith,
    )
    | inr n ↦ rw n (
      (
        e,
        λ j q h k. elim (ℕ_discrete j i) [
          | yes s ↦ let r : p ≡ q = some-eq (sym g ∙ rw s at k) in rw (sym r) n
          | no s ↦ f j q (omega (arith, s, h)) k
        ],
        l,
      ),
      omega (arith, b),
    )
  ]

  argmax_from-IsBest :
      (all ps : List F) (i : ℕ) (best : ℕ × F)
      → ((j : ℕ) → get_elem? all (i + j) ≡ get_elem? ps j)
      → best.0 < i
      → IsBest all i best
      → IsBest all (i + length ps) (argmax_from gt i ps best)
  unfolding argmax_from
  argmax_from-IsBest all [] i best s b h = let z : i + 0 ≡ i = omega arith in rw z h
  argmax_from-IsBest all (p ∷ ps) i best s b h =
      let z : i + 0 ≡ i = omega arith in
      let w : i + suc (length ps) ≡ i + 1 + length ps = omega arith in
      let (r, l) = better-IsBest all i p best b (rw z at (s 0)) h in
      rw w (
        argmax_from-IsBest all ps (i + 1) (better gt i p best)
          (λ j. let k : i + 1 + j ≡ i + suc j = omega arith in rw k (s (suc j))) l r)

-- With floats that are numbers, the greedy choice is the index of a value that no other exceeds, and
-- the first such: it exceeds all before it.
pub sample_argmax_lem :
    {F : Type 0} (gt : F → F → Bool) (p : F) (ps : List F)
    → IsOrder gt
    → (m : F) × (get_elem? (p ∷ ps) (sample_argmax gt p ps) ≡ some m)
      × ((j : ℕ) (q : F) → get_elem? (p ∷ ps) j ≡ some q → gt q m ≡ false)
      × ((j : ℕ) (q : F)
          → j < sample_argmax gt p ps
          → get_elem? (p ∷ ps) j ≡ some q
          → gt m q ≡ true)
unfolding sample_argmax
sample_argmax_lem {F} gt p ps order =
    let best = argmax_from gt 1 ps (0, p) in
    let (e, f, l) =
      argmax_from-IsBest gt order (p ∷ ps) ps 1 (0, p)
        (λ j. let k : 1 + j ≡ suc j = omega arith in rw k refl) (omega arith)
        (refl, first_best, λ j q h. absurd (omega (arith, h))) in
    (best.1, e, λ j q g. f j q (let h = get_elem?-lt (p ∷ ps) j g in omega (arith, h)) g, l)
  where
    first_best : (j : ℕ) (q : F) → j < 1 → get_elem? (p ∷ ps) j ≡ some q → gt q p ≡ false
    first_best zero q h g = let r : p ≡ q = some-eq gt order g in rw (sym r) (not_above gt order p)
    first_best (suc j) q h g = absurd (omega (arith, h))
