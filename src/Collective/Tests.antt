-- ===== src/Collective/Tests.antt =====
-- Runs of the collectives over numbers, and the theorems at eight and at three nodes.
use prefill_opt.Prelude.{
  ℕ, ◌+◌, ◌*◌, ◌≡◌, refl, arith, add32, sub32, mul32, false, List, [], ◌∷◌, map,
}
use prefill_opt.Collective.{
  Buffers, star, auto, ring, sync_node_slices, ring_all_gather, reduce_scatter, ring_all_reduce,
  add_worker, hand_out, runs_ring, star_all_reduce, steps, gather_step, reduce_step, recv_chunk,
  send_chunk, recv_from,
}
use prefill_opt.Collective.Batched.{batched_lem}
use prefill_opt.Collective.Exchange.{
  Rows, send_buf, unpack, unpack_sockets, unpack_threads, sync_node_slices_batched,
}
use prefill_opt.Sockets.{slice_of_socket}
use prefill_opt.Threads.{sockets_per_thread, socket_of}
use prefill_opt.Collective.Chunks.{back}
use prefill_opt.Collective.Gather.{ring_all_gather_lem}
use prefill_opt.Collective.Reduce.{reduce_scatter_lem, ring_sum}
use prefill_opt.Collective.Dispatch.{sum_of_ranks, sync_star, ring_loses_sum}

abbrev tens : Buffers ℕ
tens i c = 10 * i + c

abbrev ranks : List ℕ
ranks = 0 ∷ 1 ∷ 2 ∷ 3 ∷ 4 ∷ 5 ∷ 6 ∷ 7 ∷ []

-- What a run computes with.
group : Unit {0}
unfolding add32 sub32 runs_ring ring_all_reduce star_all_reduce ring_all_gather steps gather_step
    reduce_step recv_chunk send_chunk reduce_scatter recv_from add_worker hand_out sync_node_slices
group = tt

eight_by_ring :
    map (sync_node_slices ◌+◌ auto false 8 64 tens 3) ranks
    ≡ 0 ∷ 11 ∷ 22 ∷ 33 ∷ 44 ∷ 55 ∷ 66 ∷ 77 ∷ []
unfolding group
eight_by_ring = refl

eight_by_star :
    map (sync_node_slices ◌+◌ star false 8 64 tens 3) ranks
    ≡ 280 ∷ 288 ∷ 296 ∷ 304 ∷ 312 ∷ 320 ∷ 328 ∷ 336 ∷ []
unfolding group
eight_by_star = refl

ring_all_gather_lem_example : ring_all_gather 5 tens 2 4 ≡ 44
ring_all_gather_lem_example =
    ring_all_gather_lem 5 (omega arith) tens 2 4 (omega arith) (omega arith)

reduce_scatter_lem_example :
    reduce_scatter ◌+◌ 5 tens 1 (back 5 1 4) ≡ ring_sum ◌+◌ 5 tens 1 4 (back 5 1 4)
reduce_scatter_lem_example =
    reduce_scatter_lem ◌+◌ 5 (omega arith) tens 1 (omega arith) (omega arith)

sync_star_example : sync_node_slices ◌+◌ auto false 3 12 tens 2 1 ≡ sum_of_ranks ◌+◌ tens 2 1
sync_star_example =
    sync_star ◌+◌ auto false 3 12 tens 2 1 (omega arith) (omega arith) (omega arith)
      (λ k o m. absurd (omega arith))

ring_loses_sum_example :
    (sync_node_slices ◌+◌ ring false 8 64 tens 3 5 ≡ 55)
    × (sync_node_slices ◌+◌ star false 8 64 tens 3 5 ≡ sum_of_ranks ◌+◌ tens 7 5)
ring_loses_sum_example =
    ring_loses_sum ◌+◌ ring 8 64 tens 3 5 (cc) (omega arith) (omega arith) (omega arith)
      (omega arith) (omega arith) (omega arith)

abbrev numbered : Rows ℕ
numbered node row slice = 100 * node + 10 * row + slice

-- Four nodes, two rows, three threads: every node has slice `c` of node `c`.
four_gathered :
    map (sync_node_slices_batched false 0 4 3 3 2 numbered 1 1) (0 ∷ 1 ∷ 2 ∷ 3 ∷ [])
    ≡ 10 ∷ 111 ∷ 212 ∷ 313 ∷ []
unfolding sync_node_slices_batched unpack_threads unpack_sockets unpack send_buf sockets_per_thread
    socket_of slice_of_socket add32 sub32 mul32
four_gathered = refl

batched_lem_example : sync_node_slices_batched false 0 4 3 3 2 numbered 1 1 3 ≡ 313
batched_lem_example =
    batched_lem false 4 3 2 numbered 1 1 3 (omega arith) (omega arith) (omega arith) (omega arith)
      (omega arith) (omega arith)
