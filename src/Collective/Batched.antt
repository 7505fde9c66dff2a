-- ===== src/Collective/Batched.antt =====
-- `syncNodeSlicesBatched` of src/nn/nn-network.cpp: what the nodes hold after it.
use prefill_opt.Prelude.{
  ℕ, ◌-◌, ◌/◌, ◌%◌, ◌<◌, ◌≡◌, refl, sym, ◌∙◌, ap, leb→le, Bool, true, false, not, ◌&&◌,
  if◌then◌else◌, leb, ◌==◌, sub32, u32, arith, Bool-cases, inl, inr,
}
use native.Mathlib.Decide.{ℕ_discrete}
use prefill_opt.Sockets.{slice_of_socket, get_socket_index_for_node, socket-slice}
use prefill_opt.Threads.Transfers.{sockets_covered}
use prefill_opt.Collective.Exchange.{
  threads_keep, threads_set, Rows, send_buf, unpack_threads, sync_node_slices_batched, sub32_zero,
}

own_slices :
    {V : Type 0} (rows : Rows V) (node row slice socket : ℕ)
    → node < u32
    → slice < u32
    → slice_of_socket (sub32 node 0) socket ≡ slice
    → send_buf 0 rows (slice_of_socket node socket) row ≡ rows slice row slice
unfolding send_buf
own_slices rows node row slice socket node_fits slice_fits e =
    let place : slice_of_socket node socket ≡ slice =
      ap (λ k. slice_of_socket k socket) (sym (sub32_zero node node_fits)) ∙ e in
    rw (place, sub32_zero slice slice_fits) refl

-- A slice that some thread's socket stands for ends with what came in there.
threads_hold :
    {V : Type 0} (start n_sockets n_threads n_rows : ℕ) (rows : Rows V) (node row slice s : ℕ)
    (value : V)
    → row < n_rows
    → ((socket : ℕ)
        → socket < u32
        → slice_of_socket (sub32 node start) socket ≡ slice
        → send_buf start rows (slice_of_socket node socket) row ≡ value)
    → n_sockets < u32
    → 0 < n_threads
    → n_threads < u32
    → s < n_sockets
    → slice_of_socket (sub32 node start) s ≡ slice
    → unpack_threads start n_rows rows node n_sockets n_threads n_threads row slice ≡ value
threads_hold start n_sockets n_threads n_rows rows node row slice s value row_in agree small
      some_threads few below e =
    let (thread_in, served, at) =
      (sockets_covered n_sockets n_threads small some_threads few).0 s below in
    threads_set start n_rows rows node row slice value row_in agree n_threads n_sockets n_threads
      (s % n_threads) (s / n_threads) thread_in served
      (ap (slice_of_socket (sub32 node start)) at ∙ e)

all_threads :
    {V : Type 0} (n n_threads n_rows : ℕ) (rows : Rows V) (node row slice : ℕ)
    → n < u32
    → 0 < n_threads
    → n_threads < u32
    → node < n
    → slice < n
    → row < n_rows
    → unpack_threads 0 n_rows rows node (n - 1) n_threads n_threads row slice ≡ rows slice row slice
all_threads n n_threads n_rows rows node row slice small some_threads few node_in slice_in row_in =
    elim (ℕ_discrete node slice) [
      | yes own ↦
          threads_keep 0 n_rows rows node row slice (rows slice row slice) row_in agree n_threads
            (n - 1) n_threads (ap (λ m. rows m row slice) own)
      | no ne ↦
          let s = get_socket_index_for_node node slice in
          let (below, back) = socket-slice node slice n node_in slice_in small (λ e. ne (sym e)) in
          threads_hold 0 (n - 1) n_threads n_rows rows node row slice s (rows slice row slice)
            row_in agree (omega arith) some_threads few below
            (ap (λ k. slice_of_socket k s) (sub32_zero node (omega arith)) ∙ back)
    ]
  where
    agree :
        (socket : ℕ)
        → socket < u32
        → slice_of_socket (sub32 node 0) socket ≡ slice
        → send_buf 0 rows (slice_of_socket node socket) row ≡ rows slice row slice
    agree socket _ e = own_slices rows node row slice socket (omega arith) (omega arith) e

-- In a group of all `n` nodes, with any number of threads, each node ends with every node's own slice of
-- every row; but if only the first node is to have them, the others keep their rows.
pub batched_lem :
    {V : Type 0} (only : Bool) (n n_threads n_rows : ℕ) (rows : Rows V) (node row slice : ℕ)
    → n < u32
    → 0 < n_threads
    → n_threads < u32
    → node < n
    → slice < n
    → row < n_rows
    → sync_node_slices_batched only 0 n (n - 1) n_threads n_rows rows node row slice
      ≡ (if only && not (node == 0) then rows node row slice else rows slice row slice)
unfolding sync_node_slices_batched
batched_lem only n n_threads n_rows rows node row slice small some_threads few node_in slice_in
      row_in =
    elim (Bool-cases (leb n 1)) [
      | inl one ↦ rw one (one_node (omega (arith, leb→le n 1 one)) (only && not (node == 0)))
      | inr many ↦ rw many (elim (Bool-cases (only && not (node == 0))) [
        | inl skipped ↦ rw skipped refl
        | inr shared ↦ rw shared (
            all_threads n n_threads n_rows rows node row slice small some_threads few node_in
              slice_in row_in)
      ])
    ]
  where
    one_node :
        node ≡ slice
        → (test : Bool)
        → rows node row slice ≡ (if test then rows node row slice else rows slice row slice)
    one_node same true = refl
    one_node same false = ap (λ m. rows m row slice) same
