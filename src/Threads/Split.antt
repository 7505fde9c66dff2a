-- ===== src/Threads/Split.antt =====
-- The shares of a range that threads are given cover it and do not overlap.
use native.Mathlib.Nat.{mod-lt, add-zero, mul-le-mul_left}
use native.Mathlib.Numerals.{add-one}
use prefill_opt.Prelude.{
  ℕ, zero, suc, ◌+◌, ◌-◌, ◌*◌, ◌/◌, ◌%◌, ◌≤◌, ◌<◌, ◌≡◌, ◌⊎◌, inl, inr, arith, ltb, ◌==◌,
  if◌then◌else◌, add32-eq, mul32-eq, u32, index-join, Bool-cases, sym, ◌∙◌, ltb→lt, le-mul_pos,
  ==_iff, refl, false,
}
use prefill_opt.Threads.{split_start, split_end, q80_start, q80_count}

-- The shares without wrap-around.
abbrev share : ℕ → ℕ → ℕ → ℕ
share n k t = t * (n / k) + (if ltb t (n % k) then t else n % k)

module _ (n k : ℕ) (small : n < u32) (pos : 0 < k) where
  share_mono : (t : ℕ) → share n k t ≤ share n k (t + 1)
  share_mono t = ground arith

  share-suc : (t : ℕ) → share n k t + n / k + (if ltb t (n % k) then 1 else 0) ≡ share n k (t + 1)
  share-suc t = ground arith

  share-top : share n k k ≡ n
  share-top = ground (arith, index-join n k, mod-lt n pos)

  share-le : (d t : ℕ) → t + d ≡ k → share n k t ≤ n
  share-le zero t e = let e' : t ≡ k = omega arith in rw e' (omega (arith, share-top))
  share-le (suc d) t e = omega (arith, share_mono t, share-le d (t + 1) (omega arith))

  split_start-eq : (t : ℕ) → t ≤ k → split_start n k t ≡ share n k t
  unfolding split_start
  split_start-eq t h =
      let l = share-le (k - t) t (omega arith) in
      rw (mul32-eq t (n / k) (omega (arith, l, small))) (add32-eq _ _ (omega (arith, l, small)))

  split_end-eq : (t : ℕ) → t < k → split_end n k t ≡ share n k (t + 1)
  unfolding split_end
  split_end-eq t h =
      let l : share n k (t + 1) ≤ n = share-le (k - (t + 1)) (t + 1) (omega arith) in
      let e = share-suc t in
      rw
        (
          split_start-eq t (omega arith),
          add32-eq (share n k t) (n / k) (omega (arith, l, e, small)),
          add32-eq (share n k t + n / k) (if ltb t (n % k) then 1 else 0)
              (omega (arith, l, e, small)),
        )
        e

  -- The thread whose share holds `i`, among the first `d`.
  share_of :
      (d i : ℕ) → i < share n k d → (t : ℕ) × (t < d) × (share n k t ≤ i) × (i < share n k (t + 1))
  share_of zero i h = absurd (ground arith)
  share_of (suc d) i h = elim (Bool-cases (ltb i (share n k d))) [
    | inl t ↦ let (w, a, b, c) = share_of d i (ltb→lt _ _ t) in (w, omega arith, b, c)
    | inr t ↦ (d, omega arith, ground (arith, t), rw add-one h)
  ]

  share_above : (d t : ℕ) → share n k t ≤ share n k (t + d)
  share_above zero t = rw add-zero (omega arith)
  share_above (suc d) t =
      let e : t + suc d ≡ t + d + 1 = omega arith in
      rw e (omega (arith, share_above d t, share_mono (t + d)))

  share_unique :
      (i t u : ℕ)
      → share n k t ≤ i
      → i < share n k (t + 1)
      → share n k u ≤ i
      → i < share n k (u + 1)
      → t ≤ u
  share_unique i t u a b c d = elim (Bool-cases (ltb u t)) [
    | inl w ↦
        let e : u + 1 + (t - (u + 1)) ≡ t = ground (arith, w) in
        let m : share n k (u + 1) ≤ share n k t = rw e at (share_above (t - (u + 1)) (u + 1)) in
        absurd (omega (arith, a, d, m))
    | inr w ↦ ground (arith, w)
  ]

-- `SPLIT_THREADS` divides `[0, n)` among `k ≥ 1` threads with nothing left out and nothing shared:
-- the first share starts at 0, each starts where the one before ends, the last ends at `n`, and two
-- shares differ by at most one in length.
pub split_covers :
    (n k : ℕ)
    → n < u32
    → 0 < k
    → (split_start n k 0 ≡ 0)
      × ((t : ℕ) → t + 1 < k → split_start n k (t + 1) ≡ split_end n k t)
      × (split_end n k (k - 1) ≡ n)
      × ((t : ℕ)
          → t < k
          → (split_end n k t ≡ split_start n k t + n / k)
            ⊎ (split_end n k t ≡ split_start n k t + n / k + 1))
split_covers n k small pos = (
  rw (split_start-eq n k small pos 0 (omega arith)) (ground arith),
  λ t h.
      split_start-eq n k small pos (t + 1) (omega arith)
      ∙ sym (split_end-eq n k small pos t (omega arith)),
  last,
  λ t h.
      rw (split_start-eq n k small pos t (omega arith), split_end-eq n k small pos t h)
        (ground arith),
)
  where
    last : split_end n k (k - 1) ≡ n
    last =
        let e : k - 1 + 1 ≡ k = omega arith in
        split_end-eq n k small pos (k - 1) (omega arith) ∙ (rw e (share-top n k small pos))

-- So every index below `n` is done by exactly one of the `k` threads.
pub split_unique :
    (n k i : ℕ)
    → n < u32
    → 0 < k
    → i < n
    → (t : ℕ) × (t < k)
      × (split_start n k t ≤ i)
      × (i < split_end n k t)
      × ((u : ℕ) → u < k → split_start n k u ≤ i → i < split_end n k u → u ≡ t)
split_unique n k i small pos h =
    let (t, lt, a, b) = share_of n k small pos k i (rw (share-top n k small pos) h) in
    (
      t,
      lt,
      rw (split_start-eq n k small pos t (omega (arith, lt))) a,
      rw (split_end-eq n k small pos t lt) b,
      λ u hu c d.
          let c' = rw (split_start-eq n k small pos u (omega (arith, hu))) at c in
          let d' = rw (split_end-eq n k small pos u hu) at d in
          omega (
            arith,
            share_unique n k small pos i t u a b c' d',
            share_unique n k small pos i u t c' d' a b,
          ),
    )

pred_mul : (q k : ℕ) → 0 < k → q * (k - 1) + q ≡ q * k
pred_mul q zero h = absurd (omega arith)
pred_mul q (suc j) h = let e : suc j - 1 ≡ j = omega arith in rw e (omega arith)

-- The blocks of `dequantizeQ80toF32` among `k ≥ 1` threads: the first share starts at 0, each starts
-- where the one before ends, and the last ends at `n`.
pub q80_covers :
    (n k : ℕ)
    → n < u32
    → 0 < k
    → (q80_start n k 0 ≡ 0)
      × ((t : ℕ) → t + 1 < k → q80_start n k (t + 1) ≡ q80_start n k t + q80_count n k t)
      × (q80_start n k (k - 1) + q80_count n k (k - 1) ≡ n)
unfolding q80_start q80_count
q80_covers n k small pos = (
  rw (mul32-eq q 0 (omega arith)) (omega arith),
  λ t h.
      let below : q * (t + 1) ≤ n = fits (t + 1) (omega arith) in
      let not_last : (t == k - 1) ≡ false = ground (arith, h) in
      rw
        (
          mul32-eq q (t + 1) (omega (arith, below, small)),
          mul32-eq q t (omega (arith, below, small)),
          not_last,
          add32-eq q 0 (omega (arith, fits 1 pos, small)),
        )
        (omega arith),
  rw
      (
        mul32-eq q (k - 1) (omega (arith, fits (k - 1) (omega arith), small)),
        (==_iff (k - 1) (k - 1)).1 refl,
        add32-eq q (n % k)
            (omega (arith, fits 1 pos, index-join n k, fits k (omega arith), small, one_block)),
      )
      (omega (arith, index-join n k, last_block)),
)
  where
    q : ℕ
    q = n / k

    fits : (t : ℕ) → t ≤ k → q * t ≤ n
    fits t h = omega (arith, mul-le-mul_left q h, index-join n k)

    one_block : q ≤ q * k
    one_block = le-mul_pos q k pos

    last_block : q * (k - 1) + q ≡ q * k
    last_block = pred_mul q k pos
