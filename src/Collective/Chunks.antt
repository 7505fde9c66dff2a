-- ===== src/Collective/Chunks.antt =====
-- The slice and node indices of the ring, without wrap-around.
use native.Mathlib.Nat.{mod-eq_of_lt, mod-eq-sub-mod}
use prefill_opt.Prelude.{
  ℕ, ◌+◌, ◌-◌, ◌%◌, ◌≤◌, ◌<◌, ◌≡◌, arith, add32, sub32, ltb, if◌then◌else◌, ◌^◌, inl, inr,
  Bool-cases, ◌∙◌,
}
use prefill_opt.Collective.{send_chunk, recv_chunk, recv_from}

-- `i` steps back round a ring of `n` nodes.
abbrev pub back : ℕ → ℕ → ℕ → ℕ
back n i k = if ltb i k then i + n - k else i - k

once_round : (n x : ℕ) → n ≤ x → x < n + n → x % n ≡ x - n
once_round n x l h = mod-eq-sub-mod l ∙ mod-eq_of_lt (omega arith)

back_lem : (n i k x : ℕ) → i < n → k ≤ n → x + k ≡ i + n → x % n ≡ back n i k
back_lem n i k x h l e = elim (Bool-cases (ltb i k)) [
  | inl t ↦ rw t (mod-eq_of_lt {n = x} {m = n} (ground (arith, t)) ∙ omega (arith, e))
  | inr t ↦ rw t (once_round n x (ground (arith, t)) (omega (arith, e, h)) ∙ ground (arith, e, t))
]

module _ (n : ℕ) (small : n < 2 ^ 31) where
  pub send_chunk-eq : (i k : ℕ) → i < n → k < n → send_chunk n i k ≡ back n i k
  unfolding send_chunk add32 sub32
  send_chunk-eq i k h l = back_lem n i k _ h (omega arith) (omega arith)

  pub recv_chunk-eq : (i k : ℕ) → i < n → k + 1 < n → recv_chunk n i k ≡ back n i (k + 1)
  unfolding recv_chunk add32 sub32
  recv_chunk-eq i k h l = back_lem n i (k + 1) _ h (omega arith) (omega arith)

  pub recv_from-eq : (i : ℕ) → i < n → 1 < n → recv_from n i ≡ back n i 1
  unfolding recv_from add32 sub32
  recv_from-eq i h l = back_lem n i 1 _ h (omega arith) (omega arith)

module _ (n : ℕ) where
  pub back-lt : (i k : ℕ) → i < n → k ≤ n → back n i k < n
  back-lt i k h l = ground arith

  pub back-zero : (i : ℕ) → back n i 0 ≡ i
  back-zero i = ground arith

  pub back-back : (i k : ℕ) → i < n → k + 1 < n → back n (back n i 1) k ≡ back n i (k + 1)
  back-back i k h l = ground arith

  pub back-injective : (i j k : ℕ) → i < n → j < n → k < n → back n i j ≡ back n i k → j ≡ k
  back-injective i j k h l m e = ground arith

  -- Every slice is some number of steps back.
  pub back_again : (i c : ℕ) → i < n → c < n → back n i (back n i c) ≡ c
  back_again i c h l = ground arith
