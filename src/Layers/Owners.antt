-- ===== src/Layers/Owners.antt =====
-- src/llm.cpp and src/nn/nn-network.cpp: the stage that builds an operator is the one that gets its
-- weight.
use prefill_opt.Prelude.{
  sym, ◌∙◌, ℕ, zero, suc, ◌+◌, ◌*◌, ◌<◌, ◌≤◌, ◌≡◌, true, mul32, ok, List, Option, some, arith, u32,
  mul32-eq, add32, add32-eq, ◌⊎◌, inl, inr,
}
use prefill_opt.Layers.{
  Split, split_layers, sub_for_loader, sub_start, ArchType, att_weights, ff_weights, owns,
  has_layer, stage_weights,
}
use prefill_opt.Layers.Ranges.{total, Laid, Laid-Ascends, length-Laid, enclosed, Laid-entry}
use prefill_opt.Layers.Names.{Listed, part-att, part-ff, chosen-left, chosen-right, chosen-only}
use prefill_opt.Weights.{sub_part_of_op, get_layer_owner_pp_rank}
use prefill_opt.Weights.Owner.{given_owner, sub_part_of_op-le}
use prefill_opt.Layers.Offsets.{split_layers-Laid, sub_start-eq}

module _ (n_layers pp_size : ℕ) (counts : List ℕ) (layer : ℕ) {split : Split} (h : 1 < pp_size)
    (s : n_layers * 2 < u32) (t : total counts < u32) (l : layer < n_layers)
    (e : split_layers n_layers pp_size counts ≡ ok split) where
  laid : Laid 0 (n_layers * 2) pp_size (sub_for_loader split)
  laid = by_size pp_size h e
    where
      by_size :
          (size : ℕ)
          → 1 < size
          → split_layers n_layers size counts ≡ ok split
          → Laid 0 (n_layers * 2) size (sub_for_loader split)
      by_size zero many found = absurd (omega arith)
      by_size (suc left) many found = split_layers-Laid n_layers left counts s t found

  -- The range of a stage ends at most with the last sub-block.
  sub_start-le : (i : ℕ) → i ≤ pp_size → sub_start split i ≤ n_layers * 2
  sub_start-le i inside =
      let (a, f, below) =
        Laid-entry 0 (n_layers * 2) pp_size (sub_for_loader split) i laid inside in
      rw (sub_start-eq split i f) below

  -- A stage whose range holds the operator is its owner.
  owner_unique :
      (name : Option (List ℕ)) (r : ℕ)
      → r < pp_size
      → sub_start split r ≤ layer * 2 + sub_part_of_op name
      → layer * 2 + sub_part_of_op name < sub_start split (suc r)
      → get_layer_owner_pp_rank (sub_for_loader split) layer n_layers pp_size name ≡ r
  owner_unique name r inside p q =
      let (from, f, _) =
        Laid-entry 0 (n_layers * 2) pp_size (sub_for_loader split) r laid (omega arith) in
      let (to, g, _) =
        Laid-entry 0 (n_layers * 2) pp_size (sub_for_loader split) (suc r) laid (omega arith) in
      given_owner (sub_for_loader split) layer n_layers pp_size name r from to h (omega (arith, l))
        (length-Laid 0 (n_layers * 2) pp_size (sub_for_loader split) laid)
        (Laid-Ascends 0 (n_layers * 2) pp_size (sub_for_loader split) laid) (omega (arith, l, s)) f
        g (omega (arith, p, sub_start-eq split r f))
        (omega (arith, q, sub_start-eq split (suc r) g))

  owner_encloses :
      (name : Option (List ℕ))
      → (r : ℕ) × (r < pp_size)
        × (sub_start split r ≤ layer * 2 + sub_part_of_op name)
        × (layer * 2 + sub_part_of_op name < sub_start split (suc r))
  owner_encloses name =
      let part = sub_part_of_op-le name in
      let (r, from, to, inside, f, g, p, q) =
        enclosed 0 (n_layers * 2) pp_size (sub_for_loader split) (layer * 2 + sub_part_of_op name)
          laid (omega arith) (omega (arith, part, l)) in
      (r, inside, rw (sub_start-eq split r f) p, rw (sub_start-eq split (suc r) g) q)

  att_sub : mul32 layer 2 ≡ layer * 2
  att_sub = mul32-eq layer 2 (omega (arith, l, s))

  ff_sub : add32 (mul32 layer 2) 1 ≡ layer * 2 + 1
  ff_sub = rw att_sub (add32-eq (layer * 2) 1 (omega (arith, l, s)))

  owns-true :
      (r sub : ℕ)
      → sub_start split r ≤ sub
      → sub < sub_start split (suc r)
      → owns split r sub ≡ true
  unfolding owns
  owns-true r sub p q = ground arith

  owns-range :
      (r sub : ℕ)
      → owns split r sub ≡ true
      → (sub_start split r ≤ sub) × (sub < sub_start split (suc r))
  unfolding owns
  owns-range r sub o = (ground (arith, o), ground (arith, o))

  has_layer-true :
      (r part : ℕ)
      → r < pp_size
      → part ≤ 1
      → sub_start split r ≤ layer * 2 + part
      → layer * 2 + part < sub_start split (suc r)
      → has_layer split r layer ≡ true
  unfolding has_layer
  has_layer-true r part inside few p q =
      let bound = sub_start-le (suc r) (omega arith) in
      rw (add32-eq (sub_start split (suc r)) 1 (omega (arith, bound, s))) (ground (arith, p, q))

  -- When `buildLlmNet` finds a division of the layers, for the counts of the stages or evenly: of the
  -- operators with a weight that the graph has for a layer, each is in the graph of the stage that the
  -- loader takes for the owner of its weight, and in that of no other stage. There must be several
  -- stages, and neither the sub-blocks nor the sum of the counts may exceed an `NnUint`.
  pub owner_builds :
      (arch : ArchType) (name : List ℕ)
      → Listed name (att_weights arch) ⊎ Listed name (ff_weights arch)
      → let owner =
          get_layer_owner_pp_rank (sub_for_loader split) layer n_layers pp_size (some name) in
        (owner < pp_size)
        × Listed name (stage_weights arch split owner layer)
        × ((r : ℕ) → r < pp_size → Listed name (stage_weights arch split r layer) → r ≡ owner)
  unfolding stage_weights
  owner_builds arch name known =
      let (r, inside, p, q) = owner_encloses (some name) in
      let found = owner_unique (some name) r inside p q in
      let part = sub_part_of_op-le (some name) in
      let has = has_layer-true r (sub_part_of_op (some name)) inside part p q in
      rw found (
        inside,
        elim known [
          | inl att ↦
              let zero_part = part-att arch name att in
              chosen-left name (has_layer split r layer) (owns split r (mul32 layer 2))
                (owns split r (add32 (mul32 layer 2) 1)) (att_weights arch) (ff_weights arch) has
                (rw att_sub (
                  owns-true r (layer * 2) (omega (arith, p, zero_part))
                    (omega (arith, q, zero_part))))
                att
          | inr ff ↦
              let one_part = part-ff arch name ff in
              chosen-right name (has_layer split r layer) (owns split r (mul32 layer 2))
                (owns split r (add32 (mul32 layer 2) 1)) (att_weights arch) (ff_weights arch) has
                (rw ff_sub (
                  owns-true r (layer * 2 + 1) (omega (arith, p, one_part))
                    (omega (arith, q, one_part))))
                ff
        ],
        λ k k_inside listed.
            elim (chosen-only name (has_layer split k layer) (owns split k (mul32 layer 2))
              (owns split k (add32 (mul32 layer 2) 1)) (att_weights arch) (ff_weights arch)
              listed) [
                | inl (o, att) ↦
                    let zero_part = part-att arch name att in
                    let (from, to) = owns-range k (mul32 layer 2) o in
                    sym (
                      owner_unique (some name) k k_inside (omega (arith, from, zero_part, att_sub))
                        (omega (arith, to, zero_part, att_sub)))
                    ∙ found
                | inr (o, ff) ↦
                    let one_part = part-ff arch name ff in
                    let (from, to) = owns-range k (add32 (mul32 layer 2) 1) o in
                    sym (
                      owner_unique (some name) k k_inside (omega (arith, from, one_part, ff_sub))
                        (omega (arith, to, one_part, ff_sub)))
                    ∙ found
              ],
      )
