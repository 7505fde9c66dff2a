-- ===== src/Chunking/Bounds.antt =====
-- Bounds of the chunk widths.
use native.Mathlib.Nat.{div-le_self, le-div_iff_mul-le}
use prefill_opt.Prelude.{
  ℕ, ◌*◌, ◌/◌, ◌%◌, ◌^◌, ◌≤◌, ◌<◌, ◌≡◌, ◌⊎◌, inl, inr, arith, true, false, Bool, ltb, leb, min, max,
  Bool-cases, if◌then◌else◌,
}
use prefill_opt.Chunking.{
  ChunkArgs, AttentionShape, tiles, scheduled_chunk, heuristic_chunk,
  resolve_prefill_chunk_batch_size, cache_cap, prompt_cap, resolve_auto_n_batches,
}

-- The reductions never go below one nor above what they start from.
shrink_bounds :
    (c top : ℕ) (strong weak : Bool)
    → 1 ≤ c
    → c ≤ top
    → (1 ≤ (if strong then max 1 (c / 4) else if weak then max 1 (c / 2) else c))
      × ((if strong then max 1 (c / 4) else if weak then max 1 (c / 2) else c) ≤ top)
shrink_bounds c top true weak l h = omega arith
shrink_bounds c top false true l h = omega arith
shrink_bounds c top false false l h = omega arith

heuristic_bounds :
    (args : ChunkArgs) (n : ℕ)
    → 1 ≤ args.n_batches
    → (1 ≤ heuristic_chunk args n) × (heuristic_chunk args n ≤ args.n_batches)
unfolding heuristic_chunk
heuristic_bounds args n h = shrink_bounds c₂ args.n_batches _ _ low high
  where
    c₀ : ℕ
    c₀ = args.n_batches / args.pp_size

    c₁ : ℕ
    c₁ = if ltb c₀ 1 then 1 else c₀

    c₂ : ℕ
    c₂ = if leb 4 args.pp_size then max 1 (c₁ / 2) else c₁

    below : c₀ ≤ args.n_batches
    below = div-le_self args.n_batches args.pp_size

    low : 1 ≤ c₂
    low = ground arith

    high : c₂ ≤ args.n_batches
    high = ground (arith, below, h)

scheduled_bounds :
    (args : ChunkArgs) (n : ℕ)
    → 1 ≤ args.n_batches
    → (1 ≤ scheduled_chunk args n) × (scheduled_chunk args n ≤ args.n_batches)
unfolding scheduled_chunk
scheduled_bounds args n h = ground arith

-- With `nBatches` of one or more and `ppSize` below `2 ^ 29`, whatever the other options and the length of
-- the prompt, a chunk has at least one token and at most `nBatches`, the width that the graph was built for.
pub chunk_bounds :
    (args : ChunkArgs) (n : ℕ)
    → 1 ≤ args.n_batches
    → args.pp_size < 2 ^ 29
    → (1 ≤ resolve_prefill_chunk_batch_size args n)
      × (resolve_prefill_chunk_batch_size args n ≤ args.n_batches)
unfolding resolve_prefill_chunk_batch_size
chunk_bounds args n h _ = ground (arith, heuristic_bounds args n h, scheduled_bounds args n h)

-- With `autoSchedule` in force the width is a multiple of the tile of four rows or the whole batch
-- width. Where the prompt has four tokens for each of `1 ≤ ppSize < 2 ^ 29` stages, the width times `ppSize`
-- is at most the prompt, so there are at least as many chunks as stages; and the width is at least
-- the smallest of the batch width, `schedBMin` and the prompt's share for a stage, the last two
-- rounded down to tiles.
pub scheduled_lem :
    (args : ChunkArgs) (n : ℕ)
    → 1 ≤ args.pp_size
    → args.pp_size < 2 ^ 29
    → 4 * args.pp_size ≤ n
    → ((scheduled_chunk args n % 4 ≡ 0) ⊎ (scheduled_chunk args n ≡ args.n_batches))
      × (scheduled_chunk args n * args.pp_size ≤ n)
      × (min args.n_batches (min (tiles args.sched_b_min) (tiles (n / args.pp_size)))
          ≤ scheduled_chunk args n)
unfolding scheduled_chunk
scheduled_lem args n p _ h = (ground arith, (le-div_iff_mul-le p).0 fits, ground arith)
  where
    share : 4 ≤ n / args.pp_size
    share = (le-div_iff_mul-le p).1 h

    fits : scheduled_chunk args n ≤ n / args.pp_size
    fits = ground (arith, share)

-- `resolveAutoNBatches` keeps a width that was given; otherwise it takes 32 when the cache and the
-- prompt both allow 32, and else 16, and writes it back.
pub auto_lem :
    (args : ChunkArgs) (header : AttentionShape)
    → ((1 ≤ args.n_batches) × (resolve_auto_n_batches args header ≡ (args.n_batches, args)))
      ⊎ ((args.n_batches ≡ 0)
          × (32 ≤ cache_cap header)
          × (32 ≤ prompt_cap args.prompt_length)
          × (resolve_auto_n_batches args header ≡ (32, record args { n_batches = 32 })))
      ⊎ ((args.n_batches ≡ 0)
          × ((cache_cap header < 32) ⊎ (prompt_cap args.prompt_length < 32))
          × (resolve_auto_n_batches args header ≡ (16, record args { n_batches = 16 })))
unfolding resolve_auto_n_batches
auto_lem args header = elim (Bool-cases (ltb 0 args.n_batches)) [
  | inl t ↦ inl (ground (arith, t), rw t)
  | inr t ↦ elim (Bool-cases (leb 32 (min c p))) [
    | inl w ↦
        let e : max 16 (min 32 (min c p / 16 * 16)) ≡ 32 = ground (arith, w) in
        inr (inl (ground (arith, t), ground (arith, w), ground (arith, w), rw (t, e)))
    | inr w ↦
        let e : max 16 (min 32 (min c p / 16 * 16)) ≡ 16 = ground (arith, w) in
        inr (inr (ground (arith, t), ground (arith, w), rw (t, e)))
  ]
]
  where
    c : ℕ
    c = cache_cap header

    p : ℕ
    p = prompt_cap args.prompt_length
