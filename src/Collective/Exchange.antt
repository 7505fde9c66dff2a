-- ===== src/Collective/Exchange.antt =====
-- `syncNodeSlicesBatched` of src/nn/nn-network.cpp: the slices of all rows of a batch are exchanged at
-- once. A state gives every node its rows, as slices. The packed slices reach the peer as they are; the
-- chunks of 32 kB in which they travel are left out. Each thread unpacks those of its sockets.
use prefill_opt.Prelude.{
  ℕ, zero, suc, ◌<◌, ◌≡◌, refl, sym, ◌∙◌, ap, subst, lt→ltb, Bool, not, ◌&&◌, if◌then◌else◌, ltb,
  leb, ◌==◌, ==_iff, sub32, u32, arith, Bool-cases, inl, inr, add32,
}
use native.Mathlib.Decide.{ℕ_discrete}
use prefill_opt.Sockets.{slice_of_socket}
use prefill_opt.Threads.{sockets_per_thread, socket_of}

-- node, then row, then slice
abbrev pub Rows : Type 0 → Type 0
Rows V = ℕ → ℕ → ℕ → V

module _ {V : Type 0} where
  -- `sendBuf`, by rows: the node's own slices
  unfoldable pub send_buf : ℕ → Rows V → ℕ → ℕ → V
  send_buf start rows node row = rows node row (sub32 node start)

  -- What comes in at a socket is unpacked into the slice that the socket stands for. The peer is the
  -- node at the socket, `sliceIndex` counts from the start of the group.
  unfoldable pub unpack : ℕ → ℕ → Rows V → ℕ → ℕ → (ℕ → ℕ → V) → ℕ → ℕ → V
  unpack start n_rows rows node socket pipe row slice =
      if (slice == slice_of_socket (sub32 node start) socket) && ltb row n_rows
      then send_buf start rows (slice_of_socket node socket) row
      else pipe row slice

  -- The first `k` sockets of a thread, and the first `k` threads
  unfoldable pub unpack_sockets : ℕ → ℕ → Rows V → ℕ → ℕ → ℕ → ℕ → (ℕ → ℕ → V) → ℕ → ℕ → V
  unpack_sockets start n_rows rows node n_threads thread zero pipe = pipe
  unpack_sockets start n_rows rows node n_threads thread (suc k) pipe =
      unpack start n_rows rows node (socket_of n_threads thread k)
        (unpack_sockets start n_rows rows node n_threads thread k pipe)

  unfoldable pub unpack_threads : ℕ → ℕ → Rows V → ℕ → ℕ → ℕ → ℕ → ℕ → ℕ → V
  unpack_threads start n_rows rows node n_sockets n_threads zero = rows node
  unpack_threads start n_rows rows node n_sockets n_threads (suc thread) =
      unpack_sockets start n_rows rows node n_threads thread
        (sockets_per_thread n_sockets n_threads thread)
        (unpack_threads start n_rows rows node n_sockets n_threads thread)

  -- The group is the `n` nodes from `start` on, of a network where a node has `n_sockets` sockets.
  unfoldable pub sync_node_slices_batched : Bool → ℕ → ℕ → ℕ → ℕ → ℕ → Rows V → Rows V
  sync_node_slices_batched only_to_root start n n_sockets n_threads n_rows rows node =
      if leb n 1
      then rows node
      else if only_to_root && not (node == 0)
      then rows node
      else unpack_threads start n_rows rows node n_sockets n_threads n_threads

pub sub32_zero : (a : ℕ) → a < u32 → sub32 a 0 ≡ a
unfolding sub32
sub32_zero a h = omega arith

socket_of-lt : (n_threads thread i : ℕ) → socket_of n_threads thread i < u32
unfolding socket_of add32
socket_of-lt n_threads thread i = omega arith

module _ {V : Type 0} (start n_rows : ℕ) (rows : Rows V) (node row slice : ℕ) (value : V)
    (in_rows : row < n_rows)
    (agree : (socket : ℕ)
      → socket < u32
      → slice_of_socket (sub32 node start) socket ≡ slice
      → send_buf start rows (slice_of_socket node socket) row ≡ value) where
  abbrev Holds : (ℕ → ℕ → V) → Type 0
  Holds pipe = pipe row slice ≡ value

  -- A socket that stands for the slice sets it.
  unpack_sets :
      (socket : ℕ) (pipe : ℕ → ℕ → V)
      → socket < u32
      → slice_of_socket (sub32 node start) socket ≡ slice
      → Holds (unpack start n_rows rows node socket pipe)
  unfolding unpack
  unpack_sets socket pipe fits e =
      rw (e, (==_iff slice slice).1 refl, lt→ltb row n_rows in_rows) (agree socket fits e)

  unpack_keeps :
      (socket : ℕ) (pipe : ℕ → ℕ → V)
      → socket < u32
      → Holds pipe
      → Holds (unpack start n_rows rows node socket pipe)
  unfolding unpack
  unpack_keeps socket pipe fits h =
      elim (Bool-cases (slice == slice_of_socket (sub32 node start) socket)) [
        | inl e ↦
            unpack_sets socket pipe fits
              (sym ((==_iff slice (slice_of_socket (sub32 node start) socket)).0 e))
        | inr other ↦ rw other h
      ]

  module _ (n_threads n_sockets : ℕ) where
    sockets_keep :
        (thread k : ℕ) (pipe : ℕ → ℕ → V)
        → Holds pipe
        → Holds (unpack_sockets start n_rows rows node n_threads thread k pipe)
    unfolding unpack_sockets
    sockets_keep thread zero pipe h = h
    sockets_keep thread (suc k) pipe h =
        unpack_keeps (socket_of n_threads thread k) _ (socket_of-lt n_threads thread k)
          (sockets_keep thread k pipe h)

    sockets_set :
        (thread k i : ℕ) (pipe : ℕ → ℕ → V)
        → i < k
        → slice_of_socket (sub32 node start) (socket_of n_threads thread i) ≡ slice
        → Holds (unpack_sockets start n_rows rows node n_threads thread k pipe)
    unfolding unpack_sockets
    sockets_set thread zero i pipe l e = absurd (omega arith)
    sockets_set thread (suc k) i pipe l e = elim (ℕ_discrete i k) [
      | yes same ↦ unpack_sets (socket_of n_threads thread k) _ (socket_of-lt n_threads thread k) (
          ap (λ j. slice_of_socket (sub32 node start) (socket_of n_threads thread j)) (sym same)
          ∙ e)
      | no ne ↦
          unpack_keeps (socket_of n_threads thread k) _ (socket_of-lt n_threads thread k)
            (sockets_set thread k i pipe (omega (arith, ne)) e)
    ]

    pub threads_keep :
        (k : ℕ)
        → rows node row slice ≡ value
        → Holds (unpack_threads start n_rows rows node n_sockets n_threads k)
    unfolding unpack_threads
    threads_keep zero own = own
    threads_keep (suc k) own =
        sockets_keep k (sockets_per_thread n_sockets n_threads k) _ (threads_keep k own)

    pub threads_set :
        (k thread i : ℕ)
        → thread < k
        → i < sockets_per_thread n_sockets n_threads thread
        → slice_of_socket (sub32 node start) (socket_of n_threads thread i) ≡ slice
        → Holds (unpack_threads start n_rows rows node n_sockets n_threads k)
    unfolding unpack_threads
    threads_set zero thread i l served e = absurd (omega arith)
    threads_set (suc k) thread i l served e = elim (ℕ_discrete thread k) [
      | yes same ↦
          sockets_set k (sockets_per_thread n_sockets n_threads k) i _
            (subst (λ t. i < sockets_per_thread n_sockets n_threads t) same served)
            (ap (λ t. slice_of_socket (sub32 node start) (socket_of n_threads t i)) (sym same) ∙ e)
      | no ne ↦
          sockets_keep k (sockets_per_thread n_sockets n_threads k) _
            (threads_set k thread i (omega (arith, ne)) served e)
    ]
