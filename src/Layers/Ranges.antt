-- ===== src/Layers/Ranges.antt =====
-- src/llm.cpp, `buildSubBlockOffsets` and `buildLayerStartOffsets`: what offsets are made.
use prefill_opt.Prelude.{
  ℕ, zero, suc, ◌+◌, ◌*◌, ◌<◌, ◌≤◌, ◌≡◌, refl, ap, sym, ◌∙◌, subst, not, ◌==◌, add32, mul32, ok,
  >>=-eq-ok, guard-eq-ok, ok-inj, ==_iff, List, [], ◌∷◌, length, map, get_or, get_elem?, some,
  arith, u32, add32-eq, mul32-eq, dec_lt,
}
use prefill_opt.Layers.{
  empty_stage, size_mismatch, sum_mismatch, add_counts, given_offsets, starts_from,
}
use prefill_opt.Weights.Owner.{Ascends}

abbrev pub total : List ℕ → ℕ
total [] = 0
total (count ∷ counts) = count + total counts

-- Offsets from `first` to `last` that never decrease, for `n` stages
unfoldable pub Laid : ℕ → ℕ → ℕ → List ℕ → Type 0
Laid first last n [] = ⊥
Laid first last zero (a ∷ []) = (first ≡ a) × (a ≡ last)
Laid first last (suc n) (a ∷ []) = ⊥
Laid first last zero (a ∷ b ∷ offsets) = ⊥
Laid first last (suc n) (a ∷ b ∷ offsets) = (first ≡ a) × (a ≤ b) × Laid b last n (b ∷ offsets)

Laid-cons :
    (a b last n : ℕ) (offsets : List ℕ)
    → a ≤ b
    → Laid b last n offsets
    → Laid a last (suc n) (a ∷ offsets)
unfolding Laid
Laid-cons a b last zero [] l h = absurd h
Laid-cons a b last (suc n) [] l h = absurd h
Laid-cons a b last zero (c ∷ []) l (e, f) = (refl, subst (λ k. a ≤ k) e l, (refl, f))
Laid-cons a b last (suc n) (c ∷ []) l h = absurd h
Laid-cons a b last zero (c ∷ d ∷ offsets) l h = absurd h
Laid-cons a b last (suc n) (c ∷ d ∷ offsets) l (e, m, h) =
    (refl, subst (λ k. a ≤ k) e l, (refl, m, h))

Laid-le : (first last n : ℕ) (offsets : List ℕ) → Laid first last n offsets → first ≤ last
unfolding Laid
Laid-le first last zero [] h = absurd h
Laid-le first last (suc n) [] h = absurd h
Laid-le first last zero (a ∷ []) (e, f) = omega (arith, e, f)
Laid-le first last (suc n) (a ∷ []) h = absurd h
Laid-le first last zero (a ∷ b ∷ offsets) h = absurd h
Laid-le first last (suc n) (a ∷ b ∷ offsets) (e, l, h) =
    omega (arith, e, l, Laid-le b last n (b ∷ offsets) h)

pub Laid-Ascends :
    (first last n : ℕ) (offsets : List ℕ) → Laid first last n offsets → Ascends offsets
unfolding Laid Ascends
Laid-Ascends first last zero [] h = absurd h
Laid-Ascends first last (suc n) [] h = absurd h
Laid-Ascends first last zero (a ∷ []) h = tt
Laid-Ascends first last (suc n) (a ∷ []) h = absurd h
Laid-Ascends first last zero (a ∷ b ∷ offsets) h = absurd h
Laid-Ascends first last (suc n) (a ∷ b ∷ offsets) (e, l, h) =
    (l, Laid-Ascends b last n (b ∷ offsets) h)

pub length-Laid :
    (first last n : ℕ) (offsets : List ℕ) → Laid first last n offsets → length offsets ≡ n + 1
unfolding Laid
length-Laid first last zero [] h = absurd h
length-Laid first last (suc n) [] h = absurd h
length-Laid first last zero (a ∷ []) h = refl
length-Laid first last (suc n) (a ∷ []) h = absurd h
length-Laid first last zero (a ∷ b ∷ offsets) h = absurd h
length-Laid first last (suc n) (a ∷ b ∷ offsets) (e, l, h) =
    omega (arith, length-Laid b last n (b ∷ offsets) h)

-- A sub-block is in the range of some stage.
pub enclosed :
    (first last n : ℕ) (offsets : List ℕ) (sub : ℕ)
    → Laid first last n offsets
    → first ≤ sub
    → sub < last
    → (r : ℕ) × (from : ℕ) × (to : ℕ) × (r < n)
      × (get_elem? offsets r ≡ some from)
      × (get_elem? offsets (suc r) ≡ some to)
      × (from ≤ sub)
      × (sub < to)
unfolding Laid
enclosed first last zero [] sub h l m = absurd h
enclosed first last (suc n) [] sub h l m = absurd h
enclosed first last zero (a ∷ []) sub (e, f) l m = absurd (omega (arith, e, f))
enclosed first last (suc n) (a ∷ []) sub h l m = absurd h
enclosed first last zero (a ∷ b ∷ offsets) sub h l m = absurd h
enclosed first last (suc n) (a ∷ b ∷ offsets) sub (e, k, h) l m = elim (dec_lt sub b) [
  | yes here ↦ (0, a, b, omega arith, refl, refl, omega (arith, e), here)
  | no later ↦
      let (r, from, to, inside, f, g, p, q) =
        enclosed b last n (b ∷ offsets) sub h (omega (arith, later)) m in
      (suc r, from, to, omega (arith, inside), f, g, p, q)
]

add_counts-Laid :
    (sum : ℕ) (counts : List ℕ) {offsets : List ℕ}
    → sum + total counts < u32
    → add_counts sum counts ≡ ok offsets
    → Laid sum (sum + total counts) (length counts) offsets
unfolding add_counts Laid
add_counts-Laid sum [] s e = subst (Laid sum (sum + 0) 0) (ok-inj e) (refl, omega arith)
add_counts-Laid sum (count ∷ counts) s e =
    let (positive, rest) = guard-eq-ok (not (count == 0)) empty_stage _ e in
    let (offsets, f, g) = >>=-eq-ok (add_counts (add32 sum count) counts) _ rest in
    subst (Laid sum (sum + (count + total counts)) (suc (length counts))) (ok-inj g) (
      Laid-cons sum (sum + count) (sum + (count + total counts)) (length counts) offsets
        (omega arith)
        (subst (λ k. Laid (sum + count) k (length counts) offsets) (omega arith)
          (add_counts-Laid (sum + count) counts (omega (arith, s))
            (ap (λ k. add_counts k counts) (sym (add32-eq sum count (omega (arith, s)))) ∙ f))))

Laid-last :
    (first last n : ℕ) (offsets : List ℕ) → Laid first last n offsets → get_or offsets n 0 ≡ last
unfolding Laid
Laid-last first last zero [] h = absurd h
Laid-last first last (suc n) [] h = absurd h
Laid-last first last zero (a ∷ []) (e, f) = f
Laid-last first last (suc n) (a ∷ []) h = absurd h
Laid-last first last zero (a ∷ b ∷ offsets) h = absurd h
Laid-last first last (suc n) (a ∷ b ∷ offsets) (e, l, h) = Laid-last b last n (b ∷ offsets) h

pub given_offsets-Laid :
    (n pp_size : ℕ) (counts : List ℕ) {offsets : List ℕ}
    → total counts < u32
    → given_offsets n pp_size counts ≡ ok offsets
    → Laid 0 n pp_size offsets
unfolding given_offsets
given_offsets-Laid n pp_size counts {offsets} s e =
    let (sizes, rest) = guard-eq-ok (length counts == pp_size) size_mismatch _ e in
    let (made, f, g) = >>=-eq-ok (add_counts 0 counts) _ rest in
    let (sums, same) = guard-eq-ok (get_or made pp_size 0 == n) sum_mismatch _ g in
    let laid : Laid 0 (total counts) pp_size made =
      subst (λ k. Laid 0 (total counts) k made) ((==_iff (length counts) pp_size).0 sizes)
        (subst (λ k. Laid 0 k (length counts) made) (omega arith)
          (add_counts-Laid 0 counts (omega (arith, s)) f)) in
    subst (Laid 0 n pp_size) (ok-inj same) (
      subst (λ k. Laid 0 k pp_size made)
        (sym (Laid-last 0 (total counts) pp_size made laid)
          ∙ (==_iff (get_or made pp_size 0) n).0 sums)
        laid)

pub starts_from-Laid :
    (left per i n : ℕ)
    → (i + suc left) * per ≤ n
    → n < u32
    → Laid (i * per) n (suc left) (starts_from (suc left) per i n)
unfolding starts_from Laid
starts_from-Laid zero per i n l s = (
  sym (mul32-eq i per (grind arith)),
  rw (mul32-eq i per (grind arith)) (grind arith),
  (refl, refl),
)
starts_from-Laid (suc left) per i n l s =
    let first : mul32 i per ≡ i * per = mul32-eq i per (grind arith) in
    let next : mul32 (suc i) per ≡ suc i * per = mul32-eq (suc i) per (grind arith) in
    rw (first) (
      Laid-cons (i * per) (suc i * per) n (suc left) (starts_from (suc left) per (suc i) n)
        (grind arith) (starts_from-Laid left per (suc i) n (grind arith) s))

abbrev pub doubled : List ℕ → List ℕ
doubled offsets = map (λ offset. mul32 offset 2) offsets

pub doubled-Laid :
    (first last n : ℕ) (offsets : List ℕ)
    → last * 2 < u32
    → Laid first last n offsets
    → Laid (first * 2) (last * 2) n (doubled offsets)
unfolding Laid
doubled-Laid first last zero [] s h = absurd h
doubled-Laid first last (suc n) [] s h = absurd h
doubled-Laid first last zero (a ∷ []) s (e, f) =
    rw (mul32-eq a 2 (omega (arith, f, s))) (omega (arith, e), omega (arith, f))
doubled-Laid first last (suc n) (a ∷ []) s h = absurd h
doubled-Laid first last zero (a ∷ b ∷ offsets) s h = absurd h
doubled-Laid first last (suc n) (a ∷ b ∷ offsets) s (e, l, h) =
    let b_small : b ≤ last = Laid-le b last n (b ∷ offsets) h in
    let a_fits : mul32 a 2 ≡ a * 2 = mul32-eq a 2 (omega (arith, l, b_small, s)) in
    let b_fits : mul32 b 2 ≡ b * 2 = mul32-eq b 2 (omega (arith, b_small, s)) in
    (
      omega (arith, a_fits, e),
      omega (arith, a_fits, b_fits, l),
      subst (λ k. Laid k (last * 2) n (doubled (b ∷ offsets))) (sym b_fits)
          (doubled-Laid b last n (b ∷ offsets) s h),
    )

pub Laid-entry :
    (first last n : ℕ) (offsets : List ℕ) (i : ℕ)
    → Laid first last n offsets
    → i ≤ n
    → (a : ℕ) × (get_elem? offsets i ≡ some a) × (a ≤ last)
unfolding Laid
Laid-entry first last zero [] i h l = absurd h
Laid-entry first last (suc n) [] i h l = absurd h
Laid-entry first last zero (a ∷ []) zero (e, f) l = (a, refl, omega (arith, f))
Laid-entry first last zero (a ∷ []) (suc i) h l = absurd (omega arith)
Laid-entry first last (suc n) (a ∷ []) i h l = absurd h
Laid-entry first last zero (a ∷ b ∷ offsets) i h l = absurd h
Laid-entry first last (suc n) (a ∷ b ∷ offsets) zero (e, k, h) l =
    (a, refl, omega (arith, k, Laid-le b last n (b ∷ offsets) h))
Laid-entry first last (suc n) (a ∷ b ∷ offsets) (suc i) (e, k, h) l =
    Laid-entry b last n (b ∷ offsets) i h (omega arith)
