-- ===== src/Collective/Reduce.antt =====
-- The reduce-scatter of the ring, and what the two phases of the all-reduce make together.
use prefill_opt.Prelude.{
  ℕ, zero, suc, ◌+◌, ◌-◌, ◌^◌, ◌≤◌, ◌<◌, ◌≡◌, ◌≢◌, refl, ◌∙◌, ap, ap₂, arith, ◌==◌, ==_iff, false,
  leb, inl, inr, Bool-cases,
}
use prefill_opt.Collective.{Buffers, steps, reduce_step, reduce_scatter, ring_all_reduce}
use prefill_opt.Collective.Chunks.{
  back, send_chunk-eq, recv_chunk-eq, recv_from-eq, back-lt, back-back, back-injective,
}
use prefill_opt.Collective.Gather.{ring_all_gather_lem}

module _ {V : Type 0} (add : V → V → V) (n : ℕ) (small : n < 2 ^ 31) (b : Buffers V) where
  reduce_step-recv :
      (i s : ℕ)
      → i < n
      → s + 1 < n
      → reduce_step add n s b i (back n i (s + 1))
        ≡ add (b i (back n i (s + 1))) (b (back n i 1) (back n i (s + 1)))
  unfolding reduce_step
  reduce_step-recv i s h l =
      let j : ℕ = back n i 1 in
      let hj : j < n = back-lt n i 1 h (omega arith) in
      rw (recv_chunk-eq n small i s h l, recv_from-eq n small i h (omega arith))
        (rw ((==_iff (back n i (s + 1)) (back n i (s + 1))).1 refl) (
          ap (λ k. add (b i (back n i (s + 1))) (b j k))
            (send_chunk-eq n small j s hj (omega arith) ∙ back-back n i s h l)))

  reduce_step-other :
      (i s c : ℕ) → i < n → s + 1 < n → c ≢ back n i (s + 1) → reduce_step add n s b i c ≡ b i c
  unfolding reduce_step
  reduce_step-other i s c h l ne = rw (recv_chunk-eq n small i s h l) (ground (arith, ne))

-- The sum of slice `c` over node `i` and the `k` nodes behind it, in the order of the ring.
abbrev pub ring_sum : {V : Type 0} → (V → V → V) → ℕ → Buffers V → ℕ → ℕ → ℕ → V
ring_sum add n b i zero c = b i c
ring_sum add n b i (suc k) c = add (b i c) (ring_sum add n b (back n i 1) k c)

module _ {V : Type 0} (add : V → V → V) (n : ℕ) (small : n < 2 ^ 31) (b : Buffers V) where
  -- Slices further back are as they were.
  reduce_rest :
      (s i d : ℕ)
      → s < d
      → i < n
      → d < n
      → steps (reduce_step add n) s b i (back n i d) ≡ b i (back n i d)
  unfolding steps
  reduce_rest zero i d l h k = refl
  reduce_rest (suc s) i d l h k =
      reduce_step-other add n small (steps (reduce_step add n) s b) i s (back n i d) h (omega arith)
        (λ e. ne (back-injective n i d (s + 1) h (omega arith) (omega arith) e))
      ∙ reduce_rest s i d (omega arith) h k
    where
      ne : d ≢ s + 1
      ne = omega arith

  -- After `s` steps the slice `d` steps back holds the sum over `d + 1` nodes, for `d ≤ s`.
  reduce_inv :
      (s i d : ℕ)
      → s < n
      → i < n
      → d ≤ s
      → steps (reduce_step add n) s b i (back n i d) ≡ ring_sum add n b i d (back n i d)
  unfolding steps
  reduce_inv zero i d l h le = let e : d ≡ 0 = omega arith in rw e refl
  reduce_inv (suc s) i d l h le = elim (Bool-cases (d == (suc s))) [
    | inl t ↦
        let e : d ≡ suc s = (==_iff d (suc s)).0 t in
        let a : suc s ≡ s + 1 = omega arith in
        let j : ℕ = back n i 1 in
        let hj : j < n = back-lt n i 1 h (omega arith) in
        let st : Buffers V = steps (reduce_step add n) s b in
        let bb : back n j s ≡ back n i (suc s) = rw a (back-back n i s h (omega arith)) in
        let f : reduce_step add n s st i (back n i (suc s))
            ≡ add (st i (back n i (suc s))) (st j (back n i (suc s))) =
          rw a (reduce_step-recv add n small st i s h (omega arith)) in
        let g : st j (back n i (suc s)) ≡ ring_sum add n b j s (back n i (suc s)) =
          rw bb at (reduce_inv s j s (omega arith) hj (omega arith)) in
        rw e (f ∙ ap₂ add (reduce_rest s i (suc s) (omega arith) h (omega arith)) g)
    | inr t ↦
        let ne : d ≢ s + 1 = ground (arith, t) in
        reduce_step-other add n small (steps (reduce_step add n) s b) i s (back n i d) h
          (omega arith) (λ e. ne (back-injective n i d (s + 1) h (omega arith) (omega arith) e))
        ∙ reduce_inv s i d (omega arith) h (omega (arith, ne))
  ]

  -- After the reduce-scatter over `1 < n < 2 ^ 31` nodes, node `i` holds in the slice `n - 1` steps
  -- back round the ring, which is slice `i + 1`, the sum of that slice over all nodes: its own and
  -- those of the `n - 1` nodes behind it.
  pub reduce_scatter_lem :
      (i : ℕ)
      → i < n
      → 1 < n
      → reduce_scatter add n b i (back n i (n - 1)) ≡ ring_sum add n b i (n - 1) (back n i (n - 1))
  unfolding reduce_scatter
  reduce_scatter_lem i h l = reduce_inv (n - 1) i (n - 1) (omega arith) h (omega arith)

  -- But slice `i` of node `i` never changes.
  own_slice : (s i : ℕ) → s < n → i < n → steps (reduce_step add n) s b i i ≡ b i i
  unfolding steps
  own_slice zero i l h = refl
  own_slice (suc s) i l h =
      reduce_step-other add n small (steps (reduce_step add n) s b) i s i h (omega arith)
        (λ e. ground (arith, e))
      ∙ own_slice s i (omega arith) h

-- The ring all-reduce over `n ≥ 2` nodes ends with slice `c` of node `c` in slice `c` of every node:
-- the all-gather starts from the slices that the reduce-scatter has left alone, so no sum that it
-- made is in the result.
pub ring_all_reduce_lem :
    {V : Type 0} (add : V → V → V) (n : ℕ)
    → 1 < n
    → n < 2 ^ 31
    → (b : Buffers V) (i c : ℕ) → i < n
    → c < n
    → ring_all_reduce add false n b i c ≡ b c c
unfolding ring_all_reduce reduce_scatter
ring_all_reduce_lem add n l small b i c h k =
    let t : leb n 1 ≡ false = ground arith in
    rw t (
      ring_all_gather_lem n small (reduce_scatter add n b) i c h k
      ∙ own_slice add n small b (n - 1) c (omega arith) k)
