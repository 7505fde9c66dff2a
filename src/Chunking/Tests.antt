-- ===== src/Chunking/Tests.antt =====
-- Runs of the chunk widths, and the theorems at eight stages and 512 tokens.
use prefill_opt.Prelude.{◌≤◌, ◌≡◌, refl, arith, true, none, some, mul32, [], ◌∷◌, map}
use prefill_opt.Chunking.{
  ChunkArgs, AttentionShape, scheduled_chunk, resolve_prefill_chunk_batch_size,
}
use prefill_opt.Chunking.Bounds.{chunk_bounds}

abbrev scheduled : ChunkArgs
scheduled = record {
  n_batches = 32;
  pp_size = 8;
  prefill_chunk_threshold = 128;
  prefill_chunk_size = 0;
  auto_schedule = true;
  sched_b_min = 16;
  prompt_length = none;
}

-- The measured optima that the source quotes: 16, 16 and 32.
measured :
    map (resolve_prefill_chunk_batch_size scheduled) (224 ∷ 512 ∷ 2048 ∷ []) ≡ 16 ∷ 16 ∷ 32 ∷ []
unfolding resolve_prefill_chunk_batch_size scheduled_chunk mul32
measured = refl

chunk_bounds_example :
    (1 ≤ resolve_prefill_chunk_batch_size scheduled 512)
    × (resolve_prefill_chunk_batch_size scheduled 512 ≤ 32)
chunk_bounds_example = chunk_bounds scheduled 512 (omega arith) (omega arith)

abbrev llama : AttentionShape
llama = record { n_heads = 32; seq_len = 704 }

abbrev unset : ChunkArgs
unset = record scheduled { n_batches = 0; prompt_length = some 1789 }
