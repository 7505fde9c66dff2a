-- ===== src/Topology/Groups.antt =====
-- The groups and lanes of nn-topology.hpp.
use native.Mathlib.Nat.{mod-lt}
use prefill_opt.Prelude.{
  ℕ, ◌+◌, ◌*◌, ◌/◌, ◌%◌, ◌≤◌, ◌<◌, ◌≡◌, ◌↔◌, sym, ◌∙◌, ap, arith, ok, add32-eq, mul32-eq, in_block,
  block_of, index-injective, index-div, index-join, index-lt, u32,
}
use prefill_opt.Topology.{Topology, Placement, get_placement, get_lane_count, get_lane_id}
use prefill_opt.Topology.Ranks.{IsValid, digits, get_placement-eq, sp_rank-lt, lanes_pos, lanes_fit}

module _ (t : Topology) (v : IsValid t) where
  -- The number of a node's TP group.
  tp_group :
      (h : ℕ)
      → h / t.tp_size
        ≡ h / (t.sp_size * t.tp_size) * t.sp_size + h % (t.sp_size * t.tp_size) / t.tp_size
  tp_group h =
      let L : ℕ = t.sp_size * t.tp_size in
      let a : ℕ = h / L in
      let b : ℕ = h % L / t.tp_size in
      let c : ℕ = h % L % t.tp_size in
      let e : (a * t.sp_size + b) * t.tp_size + c ≡ h =
        omega (arith, index-join h L, index-join (h % L) t.tp_size) in
      ap (λ k. k / t.tp_size) (sym e)
      ∙ index-div (a * t.sp_size + b) c t.tp_size (mod-lt _ v.tp_pos)

  same_stage_digits :
      (g h : ℕ)
      → g < t.n_nodes
      → h < t.n_nodes
      → h / t.tp_size ≡ g / t.tp_size
      → ((digits t h).pp_rank ≡ (digits t g).pp_rank)
        × ((digits t h).sp_rank ≡ (digits t g).sp_rank)
  same_stage_digits g h lt_g lt_h e =
      index-injective _ _ _ _ t.sp_size (sp_rank-lt t v h lt_h) (sp_rank-lt t v g lt_g)
        (sym (tp_group h) ∙ e ∙ tp_group g)

  tp_start : (g : ℕ) → (digits t g).tp_group_start ≡ g / t.tp_size * t.tp_size
  tp_start g = rw (tp_group g) (omega arith)

  sp_start :
      (g : ℕ) → (digits t g).sp_group_start ≡ g / (t.sp_size * t.tp_size) * (t.sp_size * t.tp_size)
  sp_start g = omega arith

-- The TP group of a node, `[tpGroupStart, tpGroupEnd)`, holds exactly the nodes with its PP rank and
-- its SP rank.
pub tp_group_members :
    (t : Topology)
    → IsValid t
    → (g h : ℕ) → g < t.n_nodes
    → h < t.n_nodes
    → (p q : Placement) → get_placement t g ≡ ok p
    → get_placement t h ≡ ok q
    → ((p.tp_group_start ≤ h) × (h < p.tp_group_end))
      ↔ ((q.pp_rank ≡ p.pp_rank) × (q.sp_rank ≡ p.sp_rank))
tp_group_members t v g h lt_g lt_h p q ep eq = rw (p_is, q_is) (inside, outside)
  where
    p_is : p ≡ digits t g
    p_is = cc (get_placement-eq t v g lt_g)

    q_is : q ≡ digits t h
    q_is = cc (get_placement-eq t v h lt_h)

    inside :
        ((digits t g).tp_group_start ≤ h) × (h < (digits t g).tp_group_end)
        → ((digits t h).pp_rank ≡ (digits t g).pp_rank)
          × ((digits t h).sp_rank ≡ (digits t g).sp_rank)
    inside w = same_stage_digits t v g h lt_g lt_h (
        in_block h (g / t.tp_size) t.tp_size (omega (arith, w.0, tp_start t v g))
          (omega (arith, w.1, tp_start t v g)))

    outside :
        ((digits t h).pp_rank ≡ (digits t g).pp_rank)
          × ((digits t h).sp_rank ≡ (digits t g).sp_rank)
        → ((digits t g).tp_group_start ≤ h) × (h < (digits t g).tp_group_end)
    outside w =
        let e : (digits t h).tp_group_start ≡ (digits t g).tp_group_start = cc (w.0, w.1) in
        let k = block_of h t.tp_size v.tp_pos in omega (arith, e, k.0, k.1, tp_start t v h)

-- The SP group of a node, `[spGroupStart, spGroupEnd)`, holds exactly the nodes with its PP rank.
pub sp_group_members :
    (t : Topology)
    → IsValid t
    → (g h : ℕ) → g < t.n_nodes
    → h < t.n_nodes
    → (p q : Placement) → get_placement t g ≡ ok p
    → get_placement t h ≡ ok q
    → ((p.sp_group_start ≤ h) × (h < p.sp_group_end)) ↔ (q.pp_rank ≡ p.pp_rank)
sp_group_members t v g h lt_g lt_h p q ep eq = rw (p_is, q_is) (inside, outside)
  where
    p_is : p ≡ digits t g
    p_is = cc (get_placement-eq t v g lt_g)

    q_is : q ≡ digits t h
    q_is = cc (get_placement-eq t v h lt_h)

    inside :
        ((digits t g).sp_group_start ≤ h) × (h < (digits t g).sp_group_end)
        → (digits t h).pp_rank ≡ (digits t g).pp_rank
    inside w =
        in_block h _ (t.sp_size * t.tp_size) (omega (arith, w.0, sp_start t v g))
          (omega (arith, w.1, sp_start t v g))

    outside :
        (digits t h).pp_rank ≡ (digits t g).pp_rank
        → ((digits t g).sp_group_start ≤ h) × (h < (digits t g).sp_group_end)
    outside w =
        let e : (digits t h).sp_group_start ≡ (digits t g).sp_group_start = cc w in
        let k = block_of h (t.sp_size * t.tp_size) (lanes_pos t v) in
        omega (arith, e, k.0, k.1, sp_start t v h)

-- A node's rank is its PP rank times the number of lanes, plus its lane, which is below that number.
pub lane_of :
    (t : Topology)
    → IsValid t
    → (g : ℕ) → g < t.n_nodes
    → (p : Placement) → get_placement t g ≡ ok p
    → (get_lane_id t p < get_lane_count t) × (p.pp_rank * get_lane_count t + get_lane_id t p ≡ g)
unfolding get_lane_id get_lane_count
lane_of t v g lt_g p ep =
    rw
      (
        p_is,
        mul32-eq t.sp_size t.tp_size (lanes_fit t v),
        mul32-eq (g % L / t.tp_size) t.tp_size (omega (arith, small, fits)),
        add32-eq (g % L / t.tp_size * t.tp_size) (g % L % t.tp_size) (omega (arith, small, fits)),
      )
      (small, omega (arith, index-join g L, index-join (g % L) t.tp_size))
  where
    L : ℕ
    L = t.sp_size * t.tp_size

    fits : L < u32
    fits = lanes_fit t v

    p_is : p ≡ digits t g
    p_is = cc (get_placement-eq t v g lt_g)

    small : g % L / t.tp_size * t.tp_size + g % L % t.tp_size < L
    small = index-lt _ _ t.sp_size t.tp_size (sp_rank-lt t v g lt_g) (mod-lt _ v.tp_pos)
