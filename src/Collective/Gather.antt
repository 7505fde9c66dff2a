-- ===== src/Collective/Gather.antt =====
-- The all-gather of the ring: every node ends with every node's own slice.
use prefill_opt.Prelude.{
  ℕ, zero, suc, ◌+◌, ◌-◌, ◌^◌, ◌≤◌, ◌<◌, ◌≡◌, ◌≢◌, refl, ◌∙◌, ap, inl, inr, arith, ◌==◌, ==_iff,
  Bool-cases,
}
use prefill_opt.Collective.{Buffers, steps, gather_step, ring_all_gather}
use prefill_opt.Collective.Chunks.{
  back, send_chunk-eq, recv_chunk-eq, recv_from-eq, back-lt, back-zero, back-back, back-injective,
  back_again,
}

module _ {V : Type 0} (n : ℕ) (small : n < 2 ^ 31) (b : Buffers V) where
  -- What a step writes, and what it leaves.
  gather_step-recv :
      (i s : ℕ)
      → i < n
      → s + 1 < n
      → gather_step n s b i (back n i (s + 1)) ≡ b (back n i 1) (back n i (s + 1))
  unfolding gather_step
  gather_step-recv i s h l =
      let j : ℕ = back n i 1 in
      let hj : j < n = back-lt n i 1 h (omega arith) in
      rw (recv_chunk-eq n small i s h l, recv_from-eq n small i h (omega arith))
        (rw ((==_iff (back n i (s + 1)) (back n i (s + 1))).1 refl)
          (ap (b j) (send_chunk-eq n small j s hj (omega arith) ∙ back-back n i s h l)))

  gather_step-other :
      (i s c : ℕ) → i < n → s + 1 < n → c ≢ back n i (s + 1) → gather_step n s b i c ≡ b i c
  unfolding gather_step
  gather_step-other i s c h l ne = rw (recv_chunk-eq n small i s h l) (ground (arith, ne))

module _ {V : Type 0} (n : ℕ) (small : n < 2 ^ 31) (b : Buffers V) where
  -- After `s` steps a node holds the own slices of the `s` nodes behind it.
  gather_inv :
      (s i d : ℕ)
      → s < n
      → i < n
      → d ≤ s
      → steps (gather_step n) s b i (back n i d) ≡ b (back n i d) (back n i d)
  unfolding steps
  gather_inv zero i d l h le = let e : d ≡ 0 = omega arith in rw (e, back-zero n i) refl
  gather_inv (suc s) i d l h le = elim (Bool-cases (d == (s + 1))) [
    | inl t ↦
        let e : d ≡ s + 1 = (==_iff d (s + 1)).0 t in
        let j : ℕ = back n i 1 in
        let hj : j < n = back-lt n i 1 h (omega arith) in
        let bb : back n j s ≡ back n i (s + 1) = back-back n i s h (omega arith) in
        rw e (
          gather_step-recv n small (steps (gather_step n) s b) i s h (omega arith)
          ∙ (rw bb at (gather_inv s j s (omega arith) hj (omega arith))))
    | inr t ↦
        let ne : d ≢ s + 1 = ground (arith, t) in
        gather_step-other n small (steps (gather_step n) s b) i s (back n i d) h (omega arith)
          (λ e. ne (back-injective n i d (s + 1) h (omega arith) (omega arith) e))
        ∙ gather_inv s i d (omega arith) h (omega (arith, ne))
  ]

  -- After the ring all-gather over `n < 2 ^ 31` nodes every node holds in slice `c` the slice `c` of node `c`.
  pub ring_all_gather_lem : (i c : ℕ) → i < n → c < n → ring_all_gather n b i c ≡ b c c
  unfolding ring_all_gather
  ring_all_gather_lem i c h l =
      let d : ℕ = back n i c in
      let e : back n i d ≡ c = back_again n i c h l in
      let k : d < n = back-lt n i c h (omega arith) in
      rw e at (gather_inv (n - 1) i d (omega arith) h (omega arith))
