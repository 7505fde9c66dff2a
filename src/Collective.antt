-- ===== src/Collective.antt =====
-- src/nn/nn-network.cpp: the collectives over the nodes of a TP group, `syncNodeSlices` and the
-- routines below it. A state gives every node of the group its buffer, as slices of `nBytes / nNodes`
-- bytes; nodes are numbered from the start of the group. Thread 0 does the work. In each step
-- every node sends one slice and receives one, over first-in first-out sockets, so a step is a
-- function of the state before it. The sum of two slices is a parameter.
pub mod Chunks
pub mod Gather
pub mod Reduce
pub mod Dispatch
pub mod Exchange
pub mod Batched
pub mod Tests
use prefill_opt.Prelude.{
  ℕ, zero, suc, ◌+◌, ◌-◌, ◌/◌, ◌%◌, ◌≤◌, Bool, true, false, not, ◌&&◌, ◌||◌, if◌then◌else◌, ltb,
  leb, ◌==◌, add32, sub32, Result, ok, err,
}

-- node, then slice
abbrev pub Buffers : Type 0 → Type 0
Buffers V = ℕ → ℕ → V

-- `(localNodeIndex - step + nNodes) % nNodes`, on `NnUint`
unfoldable pub send_chunk : ℕ → ℕ → ℕ → ℕ
send_chunk n i step = add32 (sub32 i step) n % n

-- `(localNodeIndex - step - 1 + nNodes) % nNodes`
unfoldable pub recv_chunk : ℕ → ℕ → ℕ → ℕ
recv_chunk n i step = add32 (sub32 (sub32 i step) 1) n % n

-- `recvFromNode`, counted from `tpGroupStart`
unfoldable pub recv_from : ℕ → ℕ → ℕ
recv_from n i = sub32 (add32 i n) 1 % n

module _ {V : Type 0} where
  -- A step of the reduce-scatter: the received slice is added to the node's own.
  unfoldable pub reduce_step : (V → V → V) → ℕ → ℕ → Buffers V → Buffers V
  reduce_step add n step b i c =
      if c == recv_chunk n i step
      then add (b i c) (b (recv_from n i) (send_chunk n (recv_from n i) step))
      else b i c

  -- A step of the all-gather: the received slice replaces the node's own.
  unfoldable pub gather_step : ℕ → ℕ → Buffers V → Buffers V
  gather_step n step b i c =
      if c == recv_chunk n i step
      then b (recv_from n i) (send_chunk n (recv_from n i) step)
      else b i c

  -- `for (step = 0; step < rounds; step++)`
  unfoldable pub steps : (ℕ → Buffers V → Buffers V) → ℕ → Buffers V → Buffers V
  steps step zero b = b
  steps step (suc k) b = step k (steps step k b)

  unfoldable pub reduce_scatter : (V → V → V) → ℕ → Buffers V → Buffers V
  reduce_scatter add n b = steps (reduce_step add n) (n - 1) b

  -- `ringAllGather`, and phase 2 of `syncNodeSlices_ringAllReduce`
  unfoldable pub ring_all_gather : ℕ → Buffers V → Buffers V
  ring_all_gather n b = steps (gather_step n) (n - 1) b

  -- `syncNodeSlices_ringAllReduce`
  unfoldable pub ring_all_reduce : (V → V → V) → Bool → ℕ → Buffers V → Buffers V
  ring_all_reduce add only_to_root n b =
      if leb n 1
      then b
      else if only_to_root
      then reduce_scatter add n b
      else ring_all_gather n (reduce_scatter add n b)

  -- The root adds what came in from worker `w`, node `w + 1`, to its own buffer.
  unfoldable pub add_worker : (V → V → V) → ℕ → Buffers V → Buffers V
  add_worker add w b i c = if i == 0 then add (b 0 c) (b (w + 1) c) else b i c

  -- Worker `w` receives the root's buffer in place of its own.
  unfoldable pub hand_out : ℕ → Buffers V → Buffers V
  hand_out w b i c = if i == w + 1 then b 0 c else b i c

  -- `syncNodeSlices_starAllReduce`
  unfoldable pub star_all_reduce : (V → V → V) → Bool → ℕ → Buffers V → Buffers V
  star_all_reduce add only_to_root n b =
      let reduced = steps (add_worker add) (n - 1) b in
      if leb n 1 then b else if only_to_root then reduced else steps hand_out (n - 1) reduced

-- `CollectiveType`
pub data CollectiveType : Type 0 where
  auto star ring : CollectiveType

-- The collective that runs: ring, or else star.
unfoldable pub runs_ring : CollectiveType → Bool → ℕ → ℕ → Bool
runs_ring kind only_to_root n n_bytes =
    let supported = leb 8 n && (n_bytes % n == 0) in
    let effective = choose kind (not only_to_root && supported) in
    effective && not (not supported || only_to_root)
  where
    choose : CollectiveType → Bool → Bool
    choose auto can_ring = can_ring
    choose star can_ring = false
    choose ring can_ring = true

-- `syncNodeSlices`, at a node inside the group: `i < n`
module _ {V : Type 0} where
  unfoldable pub sync_node_slices :
      (V → V → V) → CollectiveType → Bool → ℕ → ℕ → Buffers V → Buffers V
  sync_node_slices add kind only_to_root n n_bytes b =
      if leb n 1 || (n_bytes == 0)
      then b
      else if runs_ring kind only_to_root n n_bytes
      then ring_all_reduce add only_to_root n b
      else star_all_reduce add only_to_root n b
