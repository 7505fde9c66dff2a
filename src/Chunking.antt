-- ===== src/Chunking.antt =====
-- The widths of the prefill chunks: `resolvePrefillChunkBatchSize` and `resolveAutoNBatches` of
-- src/app.cpp. A division by `8 * ppSize` that has wrapped to zero is left to ℕ (`n / 0` is 0); the
-- theorems take `ppSize` below `2 ^ 29`, where it cannot happen.
pub mod Bounds
mod Tests
use prefill_opt.Prelude.{
  ℕ, ◌+◌, ◌*◌, ◌/◌, Bool, Option, none, some, if◌then◌else◌, ltb, leb, min, max, mul32, mul64, u32,
  ◌%◌,
}

-- The fields of `AppCliArgs` that the two functions read. `prompt_length` is `strlen(prompt)`, or
-- `none` for no prompt.
pub record ChunkArgs : Type 0 where
  pub n_batches : ℕ
  pub pp_size : ℕ
  pub prefill_chunk_threshold : ℕ
  pub prefill_chunk_size : ℕ
  pub auto_schedule : Bool
  pub sched_b_min : ℕ
  pub prompt_length : Option ℕ

-- `(b / 4u) * 4u`
abbrev pub tiles : ℕ → ℕ
tiles b = b / 4 * 4

-- The branch of `autoSchedule`.
unfoldable pub scheduled_chunk : ChunkArgs → ℕ → ℕ
scheduled_chunk args n_prefill_tokens =
    let b₀ : ℕ = n_prefill_tokens / mul32 8 args.pp_size in
    let b₁ : ℕ = if ltb b₀ args.sched_b_min then args.sched_b_min else b₀ in
    let b₂ : ℕ = tiles b₁ in
    let b₃ : ℕ = if ltb b₂ 4 then 4 else b₂ in
    let b_cap : ℕ = max 4 (n_prefill_tokens / args.pp_size) in
    let b₄ : ℕ = if ltb b_cap b₃ then tiles b_cap else b₃ in
    let b₅ : ℕ = if ltb b₄ 4 then 4 else b₄ in if ltb args.n_batches b₅ then args.n_batches else b₅

-- The branch without `autoSchedule`.
unfoldable pub heuristic_chunk : ChunkArgs → ℕ → ℕ
heuristic_chunk args n_prefill_tokens =
    let c₀ : ℕ = args.n_batches / args.pp_size in
    let c₁ : ℕ = if ltb c₀ 1 then 1 else c₀ in
    let c₂ : ℕ = if leb 4 args.pp_size then max 1 (c₁ / 2) else c₁ in
    let pressure_divisor : ℕ =
      if ltb 0 args.prefill_chunk_threshold then args.prefill_chunk_threshold else 1 in
    let pressure : ℕ = n_prefill_tokens / pressure_divisor in
    if leb 16 pressure then max 1 (c₂ / 4) else if leb 8 pressure then max 1 (c₂ / 2) else c₂

unfoldable pub resolve_prefill_chunk_batch_size : ChunkArgs → ℕ → ℕ
resolve_prefill_chunk_batch_size args n_prefill_tokens =
    if ltb args.n_batches 1
    then 1
    else if leb args.pp_size 1
    then args.n_batches
    else if ltb n_prefill_tokens args.prefill_chunk_threshold
    then args.n_batches
    else if ltb 0 args.prefill_chunk_size
    then min args.n_batches args.prefill_chunk_size
    else if args.auto_schedule
    then scheduled_chunk args n_prefill_tokens
    else heuristic_chunk args n_prefill_tokens

-- The fields of `LlmHeader` that set the size of the attention buffer.
pub record AttentionShape : Type 0 where
  pub n_heads : ℕ
  pub seq_len : ℕ

abbrev pub k_granularity : ℕ
k_granularity = 16

abbrev pub k_min_batches : ℕ
k_min_batches = 16

abbrev pub k_max_batches : ℕ
k_max_batches = 32

abbrev pub k_l3_bytes : ℕ
k_l3_bytes = 2 * 1024 * 1024

unfoldable pub cache_cap : AttentionShape → ℕ
cache_cap header = max 1 (k_l3_bytes / max 1 (mul64 (mul64 header.n_heads header.seq_len) 4)) % u32

unfoldable pub prompt_cap : Option ℕ → ℕ
prompt_cap none = k_max_batches
prompt_cap (some length) = max 1 (length / 2) % u32

-- The width, and the arguments with it written back.
unfoldable pub resolve_auto_n_batches : ChunkArgs → AttentionShape → ℕ × ChunkArgs
resolve_auto_n_batches args header =
    if ltb 0 args.n_batches
    then (args.n_batches, args)
    else let n₀ : ℕ = min (cache_cap header) (prompt_cap args.prompt_length) in
      let n₁ : ℕ = n₀ / k_granularity * k_granularity in
      let n₂ : ℕ = max k_min_batches (min k_max_batches n₁) in (n₂, record args { n_batches = n₂ })
