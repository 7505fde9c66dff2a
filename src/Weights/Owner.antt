-- ===== src/Weights/Owner.antt =====
-- src/nn/nn-network.cpp, `getLayerOwnerPpRank` and `nodeInPpStage`.
use native.Mathlib.Nat.{mul-le-mul_right, div-eq_of_lt, mod-lt, div_self, le-div_iff_mul-le}
use prefill_opt.Prelude.{
  contains, ℕ, zero, suc, ◌+◌, ◌-◌, ◌*◌, ◌/◌, ◌<◌, ◌≤◌, ◌≡◌, inl, inr, refl, ap, sym, ◌∙◌, true,
  ◌||◌, List, [], ◌∷◌, length, get_elem?, some, none, Option, ok, ◌==◌, arith, u32, add32-eq,
  mul32-eq, ok-inj, index-join, dec_lt, Bool-cases,
}
use prefill_opt.Weights.{
  matmul_w, moe, norm_1, sub_part_of_op, owner_from, get_layer_owner_pp_rank, node_in_pp_stage,
}
use prefill_opt.Topology.{Topology, Placement, get_placement}
use prefill_opt.Topology.Ranks.{IsValid, digits, get_placement-eq, stage_end}

-- The offsets never decrease.
unfoldable pub Ascends : List ℕ → Type 0
Ascends [] = Unit
Ascends (a ∷ []) = Unit
Ascends (a ∷ b ∷ offsets) = (a ≤ b) × Ascends (b ∷ offsets)

first-le :
    (a : ℕ) (offsets : List ℕ) (i b : ℕ)
    → Ascends (a ∷ offsets)
    → get_elem? (a ∷ offsets) i ≡ some b
    → a ≤ b
unfolding Ascends
first-le a [] zero b h e = ground arith
first-le a [] (suc i) b h e = cc
first-le a (c ∷ offsets) zero b h e = ground arith
first-le a (c ∷ offsets) (suc i) b (l, h) e = omega (arith, l, first-le c offsets i b h e)

-- The loop finds the stage whose offsets enclose the sublayer.
owner_from_lem :
    (offsets : List ℕ) (last sub r i a b : ℕ)
    → Ascends offsets
    → get_elem? offsets i ≡ some a
    → get_elem? offsets (suc i) ≡ some b
    → a ≤ sub
    → sub < b
    → owner_from last sub r offsets ≡ r + i
unfolding owner_from Ascends
owner_from_lem [] last sub r i a b h e f l m = cc
owner_from_lem (x ∷ []) last sub r i a b h e f l m = cc
owner_from_lem (x ∷ y ∷ offsets) last sub r zero a b (p, h) e f l m = ground arith
owner_from_lem (x ∷ y ∷ offsets) last sub r (suc i) a b (p, h) e f l m = ground (
  arith,
  first-le y offsets i a h e,
  owner_from_lem (y ∷ offsets) last sub (r + 1) i a b h e f l m,
)

pub sub_part_of_op-le : (name : Option (List ℕ)) → sub_part_of_op name ≤ 1
unfolding sub_part_of_op
sub_part_of_op-le none = omega arith
sub_part_of_op-le (some name) =
    elim (Bool-cases (
      contains (matmul_w 1) name
      || contains (matmul_w 2) name
      || contains (matmul_w 3) name
      || contains moe name
      || contains norm_1 name)) [ inl e ↦ rw e (omega arith) | inr e ↦ rw e (omega arith) ]

-- With the offsets of the stages, as many as there are stages and one more and never decreasing, the
-- owner of a sublayer is the one stage whose offsets enclose it: the layer's attention for the
-- operators of attention, its feed-forward part for the others.
pub given_owner :
    (offsets : List ℕ) (layer n_layers pp_size : ℕ) (name : Option (List ℕ)) (r from to : ℕ)
    → 1 < pp_size
    → 0 < n_layers
    → length offsets ≡ pp_size + 1
    → Ascends offsets
    → layer * 2 + 1 < u32
    → get_elem? offsets r ≡ some from
    → get_elem? offsets (suc r) ≡ some to
    → from ≤ layer * 2 + sub_part_of_op name
    → layer * 2 + sub_part_of_op name < to
    → get_layer_owner_pp_rank offsets layer n_layers pp_size name ≡ r
unfolding get_layer_owner_pp_rank
given_owner offsets layer n_layers pp_size name r from to h g n asc small e f l m =
    rw
      (mul32-eq layer 2 (omega (arith, small)), add32-eq (layer * 2) (sub_part_of_op name) in_range)
      (ground (
        arith,
        owner_from_lem offsets (pp_size - 1) (layer * 2 + sub_part_of_op name) 0 r from to asc e f l
            m,
      ))
  where
    in_range : layer * 2 + sub_part_of_op name < u32
    in_range = omega (arith, sub_part_of_op-le name, small)

module _ (layer n_layers pp_size : ℕ) (name : Option (List ℕ)) (h : 1 < pp_size)
    (g : pp_size ≤ n_layers) where
  abbrev per_stage : ℕ
  per_stage = n_layers / pp_size

  per_stage_pos : 0 < per_stage
  per_stage_pos = (le-div_iff_mul-le (omega (arith, h))).1 (omega (arith, g))

  owner_inside :
      layer / per_stage < pp_size
      → get_layer_owner_pp_rank [] layer n_layers pp_size name ≡ layer / per_stage
  unfolding get_layer_owner_pp_rank
  owner_inside l = ground (arith, per_stage_pos)

  owner_last :
      pp_size ≤ layer / per_stage
      → get_layer_owner_pp_rank [] layer n_layers pp_size name ≡ pp_size - 1
  unfolding get_layer_owner_pp_rank
  owner_last l = ground (arith, per_stage_pos)

  -- Without offsets the layers are divided evenly, and the last stage takes what is left: the owner is
  -- a stage, its first layer is no later than the layer, and the next stage, if any, starts later.
  pub even_owner :
      (get_layer_owner_pp_rank [] layer n_layers pp_size name < pp_size)
      × (get_layer_owner_pp_rank [] layer n_layers pp_size name * per_stage ≤ layer)
      × (get_layer_owner_pp_rank [] layer n_layers pp_size name + 1 < pp_size
          → layer < (get_layer_owner_pp_rank [] layer n_layers pp_size name + 1) * per_stage)
  even_owner = elim (dec_lt (layer / per_stage) pp_size) [
    | yes inside ↦ rw (owner_inside inside) (
      inside,
      omega (arith, index-join layer per_stage),
      λ _. omega (arith, index-join layer per_stage, mod-lt layer per_stage_pos),
    )
    | no past ↦ rw (owner_last (omega (arith, past))) (
      omega (arith, h),
      omega (arith, before past, index-join layer per_stage),
      λ l. absurd (omega (arith, l, h)),
    )
  ]
    where
      before :
          ¬ (layer / per_stage < pp_size)
          → (pp_size - 1) * per_stage ≤ layer / per_stage * per_stage
      before past = mul-le-mul_right per_stage (omega (arith, past))

-- The test agrees with the topology when there is no sequence parallelism.
pub node_in_pp_stage_lem :
    (t : Topology) (g r : ℕ) {p : Placement}
    → IsValid t
    → g < t.n_nodes
    → t.sp_size ≡ 1
    → get_placement t g ≡ ok p
    → node_in_pp_stage g r t.tp_size ≡ (p.pp_rank == r)
unfolding node_in_pp_stage
node_in_pp_stage_lem t g r {p} v in_range one e =
    ap (λ k. k == r) (ap (λ k. g / k) lanes ∙ ap (λ q. q.pp_rank) same_place)
  where
    lanes : t.tp_size ≡ t.sp_size * t.tp_size
    lanes = rw one (omega arith)

    same_place : digits t g ≡ p
    same_place = ok-inj (sym (get_placement-eq t v g in_range) ∙ e)

-- With sequence parallelism the first node of the second group of stage 0 passes for a node of stage 1.
pub sp_group_moves :
    (t : Topology) {p : Placement}
    → IsValid t
    → 1 < t.sp_size
    → get_placement t t.tp_size ≡ ok p
    → (p.pp_rank ≡ 0) × (node_in_pp_stage t.tp_size 1 t.tp_size ≡ true)
unfolding node_in_pp_stage
sp_group_moves t {p} v more e =
    (ap (λ q. q.pp_rank) (sym same_place) ∙ div-eq_of_lt wide, rw (div_self v.tp_pos) refl)
  where
    wide : t.tp_size < t.sp_size * t.tp_size
    wide = grind (arith, v.tp_pos, more)

    in_range : t.tp_size < t.n_nodes
    in_range = omega (arith, wide, stage_end t v 0 v.pp_pos)

    same_place : digits t t.tp_size ≡ p
    same_place = ok-inj (sym (get_placement-eq t v t.tp_size in_range) ∙ e)
