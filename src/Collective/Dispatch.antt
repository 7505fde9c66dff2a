-- ===== src/Collective/Dispatch.antt =====
-- `syncNodeSlices`: which collective runs, and what the nodes hold after it.
use prefill_opt.Prelude.{
  ℕ, ◌-◌, ◌%◌, ◌^◌, ◌≤◌, ◌<◌, ◌≡◌, ◌≢◌, ◌↔◌, refl, ◌∙◌, arith, ◌==◌, if◌then◌else◌, Bool, true,
  false, inl, inr, Bool-cases, zero, suc, ◌+◌, leb, ap, ap₂, not, ◌&&◌,
}
use prefill_opt.Collective.{
  Buffers, CollectiveType, auto, star, ring, runs_ring, ring_all_reduce, star_all_reduce, steps,
  add_worker, hand_out, sync_node_slices,
}
use prefill_opt.Collective.Reduce.{ring_all_reduce_lem}

-- The ring runs exactly when star is not asked for, every node is to have the result, the group has
-- at least eight nodes, and the buffer divides into equal slices.
pub runs_ring_iff :
    (kind : CollectiveType) (only : Bool) (n n_bytes : ℕ)
    → (runs_ring kind only n n_bytes ≡ true)
      ↔ ((kind ≢ star) × (only ≡ false) × (8 ≤ n) × (n_bytes % n ≡ 0))
unfolding runs_ring
runs_ring_iff auto only n n_bytes = (λ h. ground arith, λ h. ground arith)
runs_ring_iff star only n n_bytes = (λ h. ground arith, λ h. absurd (h.0 refl))
runs_ring_iff ring only n n_bytes = (λ h. ground arith, λ h. ground arith)

-- The sum of slice `c` over the nodes `0 … k`, added in order of rank
abbrev pub sum_of_ranks : {V : Type 0} → (V → V → V) → Buffers V → ℕ → ℕ → V
sum_of_ranks add b zero c = b 0 c
sum_of_ranks add b (suc k) c = add (sum_of_ranks add b k c) (b (suc k) c)

module _ {V : Type 0} (add : V → V → V) (b : Buffers V) (c : ℕ) where
  workers_keep : (k i : ℕ) → i ≢ 0 → steps (add_worker add) k b i c ≡ b i c
  unfolding steps add_worker
  workers_keep zero i h = refl
  workers_keep (suc k) i h = ground (arith, workers_keep k i h)

  root_sums : (k : ℕ) → steps (add_worker add) k b 0 c ≡ sum_of_ranks add b k c
  unfolding steps add_worker
  root_sums zero = refl
  root_sums (suc k) =
      ap₂ add (root_sums k) (workers_keep k (k + 1) (omega arith) ∙ ap (λ i. b i c) (omega arith))

  root_keeps : (k : ℕ) → steps hand_out k b 0 c ≡ b 0 c
  unfolding steps hand_out
  root_keeps zero = refl
  root_keeps (suc k) = ground (arith, root_keeps k)

  handed_out : (k i : ℕ) → 0 < i → i ≤ k → steps hand_out k b i c ≡ b 0 c
  unfolding steps hand_out
  handed_out zero i p l = absurd (omega arith)
  handed_out (suc k) i p l = elim (Bool-cases (i == k + 1)) [
    | inl e ↦ rw e (root_keeps k)
    | inr e ↦ rw e (handed_out k i p (ground (arith, e)))
  ]

all_handed_out :
    {V : Type 0} (b : Buffers V) (n i c : ℕ) → i < n → steps hand_out (n - 1) b i c ≡ b 0 c
all_handed_out b n zero c h = root_keeps (λ x y. x) b c (n - 1)
all_handed_out b n (suc i) c h =
    handed_out (λ x y. x) b c (n - 1) (suc i) (omega arith) (omega arith)

star_result :
    {V : Type 0} (add : V → V → V) (kind : CollectiveType) (only : Bool) (n n_bytes : ℕ)
    (b : Buffers V) (i c : ℕ)
    → 1 < n
    → i < n
    → n_bytes ≢ 0
    → runs_ring kind only n n_bytes ≡ false
    → sync_node_slices add kind only n n_bytes b i c
      ≡ (if only && not (i == 0) then b i c else sum_of_ranks add b (n - 1) c)
unfolding sync_node_slices star_all_reduce
star_result add kind false n n_bytes b i c many inside bytes r =
    let some_workers : leb n 1 ≡ false = ground arith in
    let some_bytes : (n_bytes == 0) ≡ false = ground arith in
    rw (r, some_workers, some_bytes)
      (all_handed_out (steps (add_worker add) (n - 1) b) n i c inside ∙ root_sums add b c (n - 1))
star_result add kind true n n_bytes b zero c many inside bytes r =
    let some_workers : leb n 1 ≡ false = ground arith in
    let some_bytes : (n_bytes == 0) ≡ false = ground arith in
    rw (r, some_workers, some_bytes) (root_sums add b c (n - 1))
star_result add kind true n n_bytes b (suc i) c many inside bytes r =
    let some_workers : leb n 1 ≡ false = ground arith in
    let some_bytes : (n_bytes == 0) ≡ false = ground arith in
    let worker : (suc i == 0) ≡ false = ground arith in
    rw (r, some_workers, some_bytes, worker) (workers_keep add b c (n - 1) (suc i) (omega arith))

ring_result :
    {V : Type 0} (add : V → V → V) (kind : CollectiveType) (n n_bytes : ℕ) (b : Buffers V) (i c : ℕ)
    → 1 < n
    → n_bytes ≢ 0
    → runs_ring kind false n n_bytes ≡ true
    → sync_node_slices add kind false n n_bytes b i c ≡ ring_all_reduce add false n b i c
unfolding sync_node_slices
ring_result add kind n n_bytes b i c many bytes r = rw r (ground arith)

-- In a group of `2 ≤ n` nodes and with bytes to move: when star is asked for, or only the first node
-- is to have the result, or `n < 8`, or the bytes do not divide evenly, the first node ends with the
-- sum of the buffers that all nodes had before, added in order of rank, and the others too, unless
-- only the first is to have it; then they keep their own.
pub sync_star :
    {V : Type 0} (add : V → V → V) (kind : CollectiveType) (only : Bool) (n n_bytes : ℕ)
    (b : Buffers V) (i c : ℕ)
    → 1 < n
    → i < n
    → n_bytes ≢ 0
    → (kind ≢ star → only ≡ false → 8 ≤ n → n_bytes % n ≢ 0)
    → sync_node_slices add kind only n n_bytes b i c
      ≡ (if only && not (i == 0) then b i c else sum_of_ranks add b (n - 1) c)
sync_star add kind only n n_bytes b i c many inside bytes cond =
    star_result add kind only n n_bytes b i c many inside bytes
      (elim (Bool-cases (runs_ring kind only n n_bytes)) [
        | inl t ↦ let w = (runs_ring_iff kind only n n_bytes).0 t in absurd (cond w.0 w.1 w.2 w.3)
        | inr t ↦ t
      ])

-- With auto or ring, at least eight nodes and a buffer that divides evenly, slice `c` of every node
-- ends as slice `c` of node `c`, where star leaves the sum of slice `c` over all nodes.
pub ring_loses_sum :
    {V : Type 0} (add : V → V → V) (kind : CollectiveType) (n n_bytes : ℕ) (b : Buffers V) (i c : ℕ)
    → kind ≢ star
    → 8 ≤ n
    → n < 2 ^ 31
    → n_bytes ≢ 0
    → n_bytes % n ≡ 0
    → i < n
    → c < n
    → (sync_node_slices add kind false n n_bytes b i c ≡ b c c)
      × (sync_node_slices add star false n n_bytes b i c ≡ sum_of_ranks add b (n - 1) c)
ring_loses_sum add kind n n_bytes b i c k many small bytes even h l = (
  ring_result add kind n n_bytes b i c (omega arith) bytes
        ((runs_ring_iff kind false n n_bytes).1 (k, refl, many, even))
      ∙ ring_all_reduce_lem add n (omega arith) small b i c h l,
  sync_star add star false n n_bytes b i c (omega arith) h bytes (λ e. absurd (e refl)),
)
