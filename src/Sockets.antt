-- ===== src/Sockets.antt =====
-- The socket tables of src/nn/nn-network.cpp and src/nn/nn-pipeline.cpp. A node has one socket to
-- every other node; the root's go to the workers in order, a worker's first to the root.
mod Tests
use prefill_opt.Prelude.{
  ℕ, zero, suc, ◌+◌, ◌-◌, ◌*◌, ◌/◌, ◌%◌, ◌≤◌, ◌<◌, ◌≡◌, ◌≢◌, arith, ok, err, Result, List, [], ◌∷◌,
  map, guard, not, ◌>>=◌, ◌>>◌, if◌then◌else◌, ltb, leb, ◌==◌, add32, sub32, mul32, u32,
}
use prefill_opt.Topology.{Topology, get_global_rank, Error}

-- `getSocketIndexForNode`
unfoldable pub get_socket_index_for_node : ℕ → ℕ → ℕ
get_socket_index_for_node my_node_index peer_node =
    if my_node_index == 0
    then sub32 peer_node 1
    else if peer_node == 0
    then 0
    else if ltb peer_node my_node_index
    then peer_node
    else sub32 peer_node 1

-- The peer at a socket, as `syncNodeSlices_alltoall` computes its slice:
-- `socketIndex >= nodeIndex ? socketIndex + 1 : socketIndex`.
unfoldable pub slice_of_socket : ℕ → ℕ → ℕ
slice_of_socket node_index socket_index =
    if leb node_index socket_index then add32 socket_index 1 else socket_index

-- The node that the `i`-th host of `NnNetwork::serve` is, and the socket that it gets.
unfoldable pub other_worker_index : ℕ → ℕ → ℕ
other_worker_index node_index i = if ltb i (sub32 node_index 1) then add32 i 1 else add32 i 2

unfoldable pub served_socket_index : ℕ → ℕ → ℕ
unfolding other_worker_index
served_socket_index node_index i =
    let other = other_worker_index node_index i in
    if ltb other node_index then other else sub32 other 1

pub data SocketError : Type 0 where
  topology_error : Error → SocketError
  target_is_self invalid_root_target : SocketError

abbrev pub of_topology {ℓ} : {A : Type ℓ} → Result Error A → Result SocketError A
of_topology (ok a) = ok a
of_topology (err e) = err (topology_error e)

-- `NnPipelineCommunicator::getPipelineSocketIndex`, at the node's index and SP rank
unfoldable pub get_pipeline_socket_index : Topology → ℕ → ℕ → ℕ → ℕ → Result SocketError ℕ
get_pipeline_socket_index t my_node_index my_sp_rank target_pp_rank target_tp_rank = do
  target ← of_topology (get_global_rank t target_pp_rank my_sp_rank target_tp_rank)
  guard (not (target == my_node_index)) target_is_self
  if my_node_index == 0
      then (if target == 0 then err invalid_root_target else ok (sub32 target 1))
      else if target == 0
      then ok 0
      else if ltb target my_node_index
      then ok target
      else ok (sub32 target 1)

-- Every peer of a node has its own socket below `n - 1`, and the table of slices leads back to it.
pub socket-slice :
    (my peer n : ℕ)
    → my < n
    → peer < n
    → n < u32
    → peer ≢ my
    → (get_socket_index_for_node my peer < n - 1)
      × (slice_of_socket my (get_socket_index_for_node my peer) ≡ peer)
unfolding get_socket_index_for_node slice_of_socket sub32 add32
socket-slice my peer n h k small ne = ground arith

-- Every socket below `n - 1` goes to another node, whose socket index is that socket.
pub slice-socket :
    (my s n : ℕ)
    → my < n
    → s < n - 1
    → n < u32
    → (slice_of_socket my s < n)
      × (slice_of_socket my s ≢ my)
      × (get_socket_index_for_node my (slice_of_socket my s) ≡ s)
unfolding get_socket_index_for_node slice_of_socket sub32 add32
slice-socket my s n h k small = ground arith

-- The hosts that a worker `1 ≤ my` receives are the other workers in order, and each is put at the
-- socket that `getSocketIndexForNode` looks up later.
pub served-socket :
    (my i n : ℕ)
    → 1 ≤ my
    → my < n
    → i + 2 < n
    → n < u32
    → (1 ≤ other_worker_index my i)
      × (other_worker_index my i < n)
      × (other_worker_index my i ≢ my)
      × (served_socket_index my i ≡ get_socket_index_for_node my (other_worker_index my i))
unfolding get_socket_index_for_node served_socket_index sub32 add32
served-socket my i n p h k small = ground arith

-- The pipeline finds a stage's node at the same socket as the collectives do.
pub pipeline-socket :
    (t : Topology) (my sp pp tp target : ℕ)
    → get_global_rank t pp sp tp ≡ ok target
    → target ≢ my
    → get_pipeline_socket_index t my sp pp tp ≡ ok (get_socket_index_for_node my target)
unfolding get_pipeline_socket_index get_socket_index_for_node
pipeline-socket t my sp pp tp target e ne = rw e (ground arith)
