-- ===== src/Weights/Shares.antt =====
-- src/nn/nn-network.cpp, the loop over the nodes in `loadRowMatmulSlices` and `loadColMatmulSlices`.
use native.Mathlib.Nat.{mod-lt}
use prefill_opt.Prelude.{
  ℕ, zero, suc, ◌+◌, ◌%◌, ◌<◌, ◌≤◌, ◌≡◌, ◌≢◌, refl, ap, subst, ap₂, ◌∙◌, dec_lt, Result, ok, Bool,
  List, [], ◌∷◌, if◌then◌else◌, Bool-cases, inl, inr, arith,
}
use prefill_opt.Core.{Error}
use prefill_opt.Core.Weights.{Memory}
use prefill_opt.Weights.{Weight}
use prefill_opt.Weights.Deliver.{Delivery, read_memory, deliver, weights_of}

pub read_memory-same :
    (a b : Memory ℕ) (n x y : ℕ)
    → ((i : ℕ) → i < n → a (x + i) ≡ b (y + i))
    → read_memory a x n ≡ read_memory b y n
unfolding read_memory
read_memory-same a b zero x y h = refl
read_memory-same a b (suc n) x y h =
    ap₂ ◌∷◌ first
      (read_memory-same a b n (x + 1) (y + 1) λ i l. shift i (h (i + 1) (omega (arith, l))))
  where
    first : a x ≡ b y
    first = ap a (omega arith) ∙ h 0 (omega arith) ∙ ap b (omega arith)

    shift : (i : ℕ) → a (x + (i + 1)) ≡ b (y + (i + 1)) → a (x + 1 + i) ≡ b (y + 1 + i)
    shift i e = ap a (omega arith) ∙ e ∙ ap b (omega arith)

weights_of_self :
    (node : ℕ) (w : Weight) (ds : List Delivery)
    → weights_of node ((node, w) ∷ ds) ≡ w ∷ weights_of node ds
unfolding weights_of
weights_of_self node w ds = ground arith

weights_of_other :
    (g node : ℕ) (w : Weight) (ds : List Delivery)
    → node ≢ g
    → weights_of g ((node, w) ∷ ds) ≡ weights_of g ds
unfolding weights_of
weights_of_other g node w ds ne = ground arith

module _ (split : ℕ → Memory ℕ → Result Error (ℕ × Memory ℕ)) (weight_of : List ℕ → Weight)
    (receives : ℕ → Bool) (tp_size n_bytes : ℕ) (slice_of : ℕ → List ℕ) where
  -- What is left in the buffer by the node before does not reach the next.
  abbrev pub Splits : Type 0
  Splits =
      (rank : ℕ) (temp : Memory ℕ)
      → rank < tp_size
      → (copied : ℕ) × (filled : Memory ℕ) × (split rank temp ≡ ok (copied, filled))
        × (read_memory filled 0 n_bytes ≡ slice_of rank)

  abbrev share : ℕ → List Weight
  share g = if receives g then weight_of (slice_of (g % tp_size)) ∷ [] else []

  -- The deliveries to `k` nodes from `node` on.
  abbrev Delivered : ℕ → ℕ → List Delivery → Type 0
  Delivered node k ds =
      ((g : ℕ) → g < node → weights_of g ds ≡ [])
      × ((g : ℕ) → node ≤ g → g < node + k → weights_of g ds ≡ share g)

  from_first :
      (node k : ℕ) (ds : List Delivery)
      → weights_of node ds ≡ share node
      → ((g : ℕ) → g < node → weights_of g ds ≡ [])
      → ((g : ℕ) → node + 1 ≤ g → g < node + 1 + k → weights_of g ds ≡ share g)
      → Delivered node (suc k) ds
  from_first node k ds first below within = (
    below,
    λ g l m. elim (dec_lt node g) [
      | yes later ↦ within g (omega (arith, later)) (omega (arith, m))
      | no here ↦ subst (λ h. weights_of h ds ≡ share h) (omega (arith, l, here)) first
    ],
  )

  pub deliver_lem :
      Splits
      → 0 < tp_size
      → (k node : ℕ) (temp : Memory ℕ)
      → (ds : List Delivery) × (deliver split weight_of receives tp_size n_bytes k node temp
          ≡ ok ds)
        × Delivered node k ds
  unfolding deliver weights_of
  deliver_lem splits pos zero node temp = ([], refl, ((λ g l. refl), λ g l m. absurd (omega arith)))
  deliver_lem splits pos (suc k) node temp = elim (Bool-cases (receives node)) [
    | inl taken ↦
        let (copied, filled, e, slice) = splits (node % tp_size) temp (mod-lt node pos) in
        let (ds, e2, (below, within)) = deliver_lem splits pos k (node + 1) filled in
        let w = weight_of (read_memory filled 0 n_bytes) in
        (
          (node, w) ∷ ds,
          rw (taken, e, e2) refl,
          from_first node k ((node, w) ∷ ds)
              (rw taken (
                weights_of_self node w ds
                ∙ ap₂ ◌∷◌ (ap weight_of slice) (below node (omega arith))))
              (λ g l. weights_of_other g node w ds (omega (arith, l)) ∙ below g (omega (arith, l)))
              (λ g l m. weights_of_other g node w ds (omega (arith, l)) ∙ within g l m),
        )
    | inr skipped ↦
        let (ds, e2, (below, within)) = deliver_lem splits pos k (node + 1) temp in
        (
          ds,
          rw (skipped, e2) refl,
          from_first node k ds (rw skipped (below node (omega arith)))
              (λ g l. below g (omega (arith, l))) within,
        )
  ]
