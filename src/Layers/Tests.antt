-- ===== src/Layers/Tests.antt =====
-- Four layers on three stages, by counts of layers, by counts of sub-blocks, and evenly.
use prefill_opt.Prelude.{
  ℕ, inl, inr, codes, contains, ◌≡◌, ◌<◌, some, arith, refl, true, false, ok, err, [], ◌∷◌, add32,
  mul32,
}
use prefill_opt.Weights.{owner_from, sub_part_of_op, get_layer_owner_pp_rank}
use prefill_opt.Layers.Owners.{owner_builds}
use prefill_opt.Layers.Names.{Listed}
use prefill_opt.Layers.{
  Split, sub_start, qwen3, ff_weights, owns, has_layer, stage_weights, sub_for_loader, sum_mismatch,
  add_counts, given_offsets, starts_from, sum_from, is_sub_mode, build_sub_block_offsets,
  build_layer_start_offsets, split_layers, even_from,
}

by_layers :
    split_layers 4 3 (2 ∷ 1 ∷ 1 ∷ [])
    ≡ ok (record { sub_mode = false; offsets = 0 ∷ 2 ∷ 3 ∷ 4 ∷ [] })
unfolding split_layers is_sub_mode sum_from build_layer_start_offsets given_offsets add_counts add32
    mul32
by_layers = refl

by_sub_blocks :
    split_layers 4 3 (3 ∷ 3 ∷ 2 ∷ [])
    ≡ ok (record { sub_mode = true; offsets = 0 ∷ 3 ∷ 6 ∷ 8 ∷ [] })
unfolding split_layers is_sub_mode sum_from build_sub_block_offsets given_offsets add_counts add32
    mul32
by_sub_blocks = refl

evenly : split_layers 4 3 [] ≡ ok (record { sub_mode = false; offsets = 0 ∷ 1 ∷ 2 ∷ 4 ∷ [] })
unfolding split_layers is_sub_mode build_layer_start_offsets starts_from mul32
evenly = refl

even_sub_blocks : build_sub_block_offsets 4 3 [] ≡ ok (0 ∷ 3 ∷ 6 ∷ 8 ∷ [])
unfolding build_sub_block_offsets even_from add32 mul32
even_sub_blocks = refl

wrong_sum : split_layers 4 3 (2 ∷ 2 ∷ 1 ∷ []) ≡ err sum_mismatch
unfolding split_layers is_sub_mode sum_from build_layer_start_offsets given_offsets add_counts add32
    mul32
wrong_sum = refl

-- The attention of layer 1 is in stage 0, and its feed-forward part in stage 1.
abbrev apart : Split
apart = record { sub_mode = true; offsets = 0 ∷ 3 ∷ 6 ∷ 8 ∷ [] }

-- The stages of the parts of layer 1, and what the graph of stage 1 has for it
parts_apart :
    (get_layer_owner_pp_rank (sub_for_loader apart) 1 4 3 (some (codes "block_matmul_q")) ≡ 0)
    × (get_layer_owner_pp_rank (sub_for_loader apart) 1 4 3 (some (codes "block_matmul_w1")) ≡ 1)
    × (stage_weights qwen3 apart 1 1 ≡ ff_weights qwen3)
unfolding get_layer_owner_pp_rank owner_from sub_for_loader sub_part_of_op contains stage_weights
    has_layer owns sub_start add32 mul32
parts_apart = (refl, refl, refl)

owner_builds_example :
    let owner =
      get_layer_owner_pp_rank (sub_for_loader apart) 1 4 3 (some (codes "block_norm_1")) in
    (owner < 3)
    × Listed (codes "block_norm_1") (stage_weights qwen3 apart owner 1)
    × ((r : ℕ) → r < 3 → Listed (codes "block_norm_1") (stage_weights qwen3 apart r 1) → r ≡ owner)
unfolding split_layers is_sub_mode sum_from build_sub_block_offsets given_offsets add_counts add32
    mul32 Listed ff_weights
owner_builds_example =
    owner_builds 4 3 (3 ∷ 3 ∷ 2 ∷ []) 1 (omega arith) (omega arith) (omega arith) (omega arith) refl
      qwen3 (codes "block_norm_1") (inr (inl refl))
