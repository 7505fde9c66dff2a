-- ===== src/Topology/Tests.antt =====
-- Runs of nn-topology.hpp, and the theorems at twelve nodes in two stages of three by two.
use prefill_opt.Prelude.{◌<◌, ◌≡◌, refl, ok, err, ◌>>=◌, add32, mul32, arith}
use prefill_opt.Topology.{
  Topology, Placement, create, get_placement, get_global_rank, not_divisible,
}
use prefill_opt.Topology.Ranks.{IsValid, rank-placement}

placed :
    (create 16 2 4 >>= λ t.
    get_placement t 13 >>= λ p. get_global_rank t p.pp_rank p.sp_rank p.tp_rank)
    ≡ ok 13
unfolding create get_placement get_global_rank add32 mul32
placed = refl

refused : create 10 4 1 ≡ err not_divisible
unfolding create mul32
refused = refl

-- The product of the sizes wraps to 131073, so the check of divisibility passes.
wrapped_sizes :
    create 131073 65537 65537
    ≡ ok (record { n_nodes = 131073; pp_size = 65537; sp_size = 65537; tp_size = 1 })
unfolding create mul32
wrapped_sizes = refl

abbrev twelve : Topology
twelve = record { n_nodes = 12; pp_size = 2; sp_size = 3; tp_size = 2 }

twelve-IsValid : IsValid twelve
twelve-IsValid = omega arith

rank-placement_example :
    (p : Placement) × (get_placement twelve 9 ≡ ok p)
    × (p.pp_rank < 2)
    × (p.sp_rank < 3)
    × (p.tp_rank < 2)
    × (get_global_rank twelve p.pp_rank p.sp_rank p.tp_rank ≡ ok 9)
rank-placement_example = rank-placement twelve twelve-IsValid 9 (omega arith)
