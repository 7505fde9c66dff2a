-- ===== src/Wire/Chunks/Tests.antt =====
-- Five bytes, in chunks of two and of three.
use prefill_opt.Prelude.{◌≡◌, refl, [], ◌∷◌, err}
use prefill_opt.Wire.Codec.{read_bytes, closed}
use prefill_opt.Wire.Chunks.{chunk_size, read_chunks, net_read}

cut_short : net_read 3 5 (1 ∷ 2 ∷ 3 ∷ 4 ∷ []) ≡ err closed
unfolding net_read read_chunks chunk_size read_bytes
cut_short = refl
