-- ===== src/Topology/Ranks.antt =====
-- Ranks and placements of nn-topology.hpp are two views of one numbering.
use native.Mathlib.Nat.{mod-lt, mul-pos}
use prefill_opt.Prelude.{
  ℕ, ◌+◌, ◌*◌, ◌/◌, ◌%◌, ◌≤◌, ◌<◌, ◌≡◌, ◌∙◌, ap, arith, ok, u32, add32-eq, mul32-eq, mul32,
  index-lt, index-div, index-mod, index-join, div-lt, le-mul_pos,
}
use prefill_opt.Topology.{Topology, Placement, create, get_placement, get_global_rank}

-- What a constructed topology guarantees when `ppSize * spSize` fits in 32 bits.
pub record IsValid (t : Topology) : Type 0 where
  pub pp_pos : 1 ≤ t.pp_size
  pub sp_pos : 1 ≤ t.sp_size
  pub tp_pos : 1 ≤ t.tp_size
  pub fits : t.n_nodes < u32
  pub covers : t.pp_size * (t.sp_size * t.tp_size) ≡ t.n_nodes

create_inv :
    (n pp sp : ℕ) {t : Topology}
    → create n pp sp ≡ ok t
    → (1 ≤ n)
      × (1 ≤ pp)
      × (1 ≤ sp)
      × (n % mul32 pp sp ≡ 0)
      × (t.n_nodes ≡ n)
      × (t.pp_size ≡ pp)
      × (t.sp_size ≡ sp)
      × (t.tp_size ≡ n / mul32 pp sp)
unfolding create
create_inv n pp sp h = ground arith

-- A topology of `nNodes < 2 ^ 32` nodes that the constructor accepts is valid, if the product
-- `ppSize * spSize` fits in 32 bits.
pub create-IsValid :
    (n pp sp : ℕ) {t : Topology} → n < u32 → pp * sp < u32 → create n pp sp ≡ ok t → IsValid t
create-IsValid n pp sp {t} l l' h =
    let e = create_inv n pp sp h in
    let w : n % (pp * sp) ≡ 0 = rw (mul32-eq pp sp l') at (e.3) in
    let q : t.tp_size ≡ n / (pp * sp) = rw (mul32-eq pp sp l') at (e.7) in
    let j = index-join n (pp * sp) in
    record {
      pp_pos = rw (e.5) (e.1);
      sp_pos = rw (e.6) (e.2);
      tp_pos = rw q (tp_pos (e.0) (omega (arith, w, j)));
      fits = rw (e.4) l;
      covers = rw (e.4, e.5, e.6, q) (omega (arith, w, j));
    }
  where
    tp_pos : {k : ℕ} → 1 ≤ n → k * (pp * sp) ≡ n → 1 ≤ k
    tp_pos p r = grind arith

-- The placement without wrap-around: the digits of the rank, and the ends of its groups.
abbrev pub digits : Topology → ℕ → Placement
digits t g =
    let lanes : ℕ = t.sp_size * t.tp_size in
    let start : ℕ = g / lanes * t.sp_size * t.tp_size in
    let tp_start : ℕ = start + g % lanes / t.tp_size * t.tp_size in
    record {
      global_rank = g;
      pp_rank = g / lanes;
      sp_rank = g % lanes / t.tp_size;
      tp_rank = g % lanes % t.tp_size;
      tp_group_start = tp_start;
      tp_group_end = tp_start + t.tp_size;
      sp_group_start = start;
      sp_group_end = start + lanes;
    }

-- The bounds that keep every product and sum of the header below `2 ^ 32`.
module _ (t : Topology) (v : IsValid t) where
  pub lanes_pos : 0 < t.sp_size * t.tp_size
  lanes_pos = mul-pos v.sp_pos v.tp_pos

  pub stage_end : (a : ℕ) → a < t.pp_size → (a + 1) * (t.sp_size * t.tp_size) ≤ t.n_nodes
  stage_end a h = grind (arith, v.covers)

  pub lanes_fit : t.sp_size * t.tp_size < u32
  lanes_fit = omega (arith, stage_end 0 v.pp_pos, v.fits)

  pub group_end :
      (a b : ℕ)
      → a < t.pp_size
      → b < t.sp_size
      → a * (t.sp_size * t.tp_size) + (b + 1) * t.tp_size ≤ t.n_nodes
  group_end a b h k =
      let e : (a + 1) * (t.sp_size * t.tp_size) ≤ t.n_nodes = stage_end a h in
      let f : (b + 1) * t.tp_size ≤ t.sp_size * t.tp_size = grind arith in omega (arith, e, f)

  module _ (g : ℕ) (in_range : g < t.n_nodes) where
    pub pp_rank-lt : g / (t.sp_size * t.tp_size) < t.pp_size
    pp_rank-lt = div-lt g t.pp_size (t.sp_size * t.tp_size) lanes_pos (rw v.covers in_range)

    pub sp_rank-lt : g % (t.sp_size * t.tp_size) / t.tp_size < t.sp_size
    sp_rank-lt = div-lt _ t.sp_size t.tp_size v.tp_pos (mod-lt g lanes_pos)

    -- No operation of `getPlacement` wraps, and no division in it is by zero.
    pub get_placement-eq : get_placement t g ≡ ok (digits t g)
    unfolding get_placement
    get_placement-eq =
        let L : ℕ = t.sp_size * t.tp_size in
        let a : ℕ = g / L in
        let b : ℕ = g % L / t.tp_size in
        let ha = stage_end a pp_rank-lt in
        let hb = group_end a b pp_rank-lt sp_rank-lt in
        let k : a * t.sp_size ≤ a * t.sp_size * t.tp_size = le-mul_pos _ _ v.tp_pos in
        let f = v.fits in
        rw
          (
            mul32-eq t.sp_size t.tp_size lanes_fit,
            mul32-eq a t.sp_size (omega (arith, ha, k, f)),
            mul32-eq (a * t.sp_size) t.tp_size (omega (arith, ha, f)),
            mul32-eq b t.tp_size (omega (arith, hb, f)),
            add32-eq (a * t.sp_size * t.tp_size) (b * t.tp_size) (omega (arith, hb, f)),
            add32-eq (a * t.sp_size * t.tp_size + b * t.tp_size) t.tp_size (omega (arith, hb, f)),
            add32-eq (a * t.sp_size * t.tp_size) L (omega (arith, ha, f)),
          )
          (ground (arith, lanes_pos, v.tp_pos, in_range))

  module _ (a b c : ℕ) (lt_a : a < t.pp_size) (lt_b : b < t.sp_size) (lt_c : c < t.tp_size) where
    -- The rank of a triple, without wrap-around.
    pub get_global_rank-eq :
        get_global_rank t a b c ≡ ok (a * (t.sp_size * t.tp_size) + (b * t.tp_size + c))
    unfolding get_global_rank
    get_global_rank-eq =
        let h = group_end a b lt_a lt_b in
        let f = v.fits in
        let A : ℕ = a * (t.sp_size * t.tp_size) in
        rw
          (
            mul32-eq t.sp_size t.tp_size lanes_fit,
            mul32-eq a (t.sp_size * t.tp_size) (omega (arith, h, f)),
            mul32-eq b t.tp_size (omega (arith, h, f)),
            add32-eq A (b * t.tp_size) (omega (arith, h, f)),
            add32-eq (A + b * t.tp_size) c (omega (arith, h, f)),
          )
          (ground arith)

-- Every node of a valid topology has a placement with ranks in range, and the rank that
-- `getGlobalRank` computes from them is the node's own.
pub rank-placement :
    (t : Topology)
    → IsValid t
    → (g : ℕ) → g < t.n_nodes
    → (p : Placement) × (get_placement t g ≡ ok p)
      × (p.pp_rank < t.pp_size)
      × (p.sp_rank < t.sp_size)
      × (p.tp_rank < t.tp_size)
      × (get_global_rank t p.pp_rank p.sp_rank p.tp_rank ≡ ok g)
rank-placement t v g h =
    (digits t g, get_placement-eq t v g h, a, b, c, get_global_rank-eq t v _ _ _ a b c ∙ ap ok join)
  where
    a : g / (t.sp_size * t.tp_size) < t.pp_size
    a = pp_rank-lt t v g h

    b : g % (t.sp_size * t.tp_size) / t.tp_size < t.sp_size
    b = sp_rank-lt t v g h

    c : g % (t.sp_size * t.tp_size) % t.tp_size < t.tp_size
    c = mod-lt _ v.tp_pos

    join :
        g / (t.sp_size * t.tp_size) * (t.sp_size * t.tp_size)
          + (g % (t.sp_size * t.tp_size) / t.tp_size * t.tp_size
              + g % (t.sp_size * t.tp_size) % t.tp_size)
        ≡ g
    join = rw (index-join (g % (t.sp_size * t.tp_size)) t.tp_size) (index-join g _)

-- Every triple of ranks in range is the placement of exactly the node that `getGlobalRank` names.
pub placement-rank :
    (t : Topology)
    → IsValid t
    → (a b c : ℕ) → a < t.pp_size
    → b < t.sp_size
    → c < t.tp_size
    → (g : ℕ) × (get_global_rank t a b c ≡ ok g)
      × (g < t.n_nodes)
      × (p : Placement) × (get_placement t g ≡ ok p)
      × (p.pp_rank ≡ a)
      × (p.sp_rank ≡ b)
      × (p.tp_rank ≡ c)
placement-rank t v a b c lt_a lt_b lt_c = (
  g,
  get_global_rank-eq t v a b c lt_a lt_b lt_c,
  lt_g,
  digits t g,
  get_placement-eq t v g lt_g,
  index-div a lane L lt_lane,
  ap (λ k. k / t.tp_size) (index-mod a lane L lt_lane) ∙ index-div b c t.tp_size lt_c,
  ap (λ k. k % t.tp_size) (index-mod a lane L lt_lane) ∙ index-mod b c t.tp_size lt_c,
)
  where
    L : ℕ
    L = t.sp_size * t.tp_size

    lane : ℕ
    lane = b * t.tp_size + c

    g : ℕ
    g = a * L + lane

    lt_lane : lane < L
    lt_lane = index-lt b c t.sp_size t.tp_size lt_b lt_c

    lt_g : g < t.n_nodes
    lt_g = rw (← v.covers) (index-lt a lane t.pp_size L lt_a lt_lane)
