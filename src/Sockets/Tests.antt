-- ===== src/Sockets/Tests.antt =====
-- The socket tables at four nodes, and the theorems there.
use prefill_opt.Prelude.{◌≡◌, refl, add32, [], ◌∷◌, map}
use prefill_opt.Topology.{Topology}
use prefill_opt.Sockets.{slice_of_socket}

peers_of_two : map (slice_of_socket 2) (0 ∷ 1 ∷ 2 ∷ []) ≡ 0 ∷ 1 ∷ 3 ∷ []
unfolding slice_of_socket add32
peers_of_two = refl

abbrev stages : Topology
stages = record { n_nodes = 4; pp_size = 2; sp_size = 1; tp_size = 2 }
