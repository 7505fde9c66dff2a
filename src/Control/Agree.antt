-- ===== src/Control/Agree.antt =====
-- src/app.cpp: a worker that reads a packet stands where the root stands.
use prefill_opt.Prelude.{
  ℕ, ◌/◌, ◌<◌, ◌≤◌, ◌≡◌, ◌≢◌, ◌⊎◌, inl, inr, refl, subst, sym, ◌∙◌, Bool, true, false, ◌||◌, not,
  ok, some, List, length, get_elem?, get_or, leb, ◌==◌, if◌then◌else◌, add32, sub32, arith,
}
use prefill_opt.Wire.Config.Node.{NodePlace}
use prefill_opt.Control.{Packet, max_control_batch_pos}
use prefill_opt.Control.Root.{Root, checked_batch_size}
use prefill_opt.Control.Worker.{
  Worker, active_span, change_phase, take_span, spanned, entry_position, try_read_control_packet,
}
use prefill_opt.Control.Fill.{get_elem?-fill}
use prefill_opt.Control.Told.{Told, Sized, Command}
use prefill_opt.Control.Told.Calls.{Standing, run_commands, follow_all, run_commands-Standing}

-- The sizes that the node derives from its place.
abbrev pub tp_size_of : NodePlace → ℕ
tp_size_of node = sub32 node.tp_group_end node.tp_group_start

abbrev pub sp_size_of : NodePlace → ℕ
sp_size_of node = sub32 node.sp_group_end node.sp_group_start / tp_size_of node

-- The packet has no positions of its own for the node's group.
abbrev pub NoOverride : {F : Type 0} → NodePlace → Packet F → Type 0
NoOverride node packet =
    (sp_size_of node ≤ 1)
    ⊎ ((get_or packet.sp_groups node.sp_rank
          (record { group_position = 0; group_batch_size = 0 })).group_batch_size
        ≡ 0)

module _ {F : Type 0} (to_float : ℕ → F) where
  span_of_root :
      (node : NodePlace) (packet : Packet F)
      → tp_size_of node ≢ 0
      → NoOverride node packet
      → active_span node packet ≡ ok (packet.position, packet.batch_size)
  unfolding active_span
  span_of_root node packet tp (inl few) = ground arith
  span_of_root node packet tp (inr none) = ground arith

  pub same_phase : (decode : Bool) (w : Worker F) → (change_phase decode w).decode_phase ≡ decode
  unfolding change_phase
  same_phase decode w = ground arith

  still_finished :
      (decode : Bool) (w : Worker F) → (change_phase decode w).is_finished ≡ w.is_finished
  unfolding change_phase
  still_finished decode w = ground arith

  take_span_lem :
      (pos n : ℕ) (w : Worker F)
      → n ≢ 0
      → n ≤ w.max_batch_size
      → w.max_batch_size ≤ length w.worker_pipe
      → (w.worker_packet.position_mode ≡ 1 → n ≤ max_control_batch_pos)
      → (w' : Worker F) × (take_span to_float pos n w ≡ ok w')
        × (w'.worker_batch ≡ n)
        × (w'.decode_phase ≡ (w.worker_packet.phase == 1))
        × (w'.is_finished ≡ w.is_finished)
        × ((i : ℕ)
            → i < n
            → get_elem? w'.worker_pipe i
              ≡ some (
                  to_float (
                    if w.worker_packet.position_mode == 1
                    then get_or w.worker_packet.batch_positions i 0
                    else add32 pos i)))
  unfolding take_span checked_batch_size spanned entry_position
  take_span_lem pos n w some_rows fits room explicit = (
    spanned to_float pos n w,
    rw (rows, within, slots) refl,
    refl,
    same_phase (w.worker_packet.phase == 1) w,
    still_finished (w.worker_packet.phase == 1) w,
    λ i l.
        get_elem?-fill (entry_position to_float w.worker_packet pos) 0 n w.worker_pipe i
          (omega arith) (omega (arith, l)) (omega (arith, l, fits, room)),
  )
    where
      rows : (n == 0) ≡ false
      rows = ground arith

      within : leb n w.max_batch_size ≡ true
      within = ground (arith, fits)

      slots : (not (w.worker_packet.position_mode == 1) || leb n max_control_batch_pos) ≡ true
      slots = ground (arith, explicit)

  -- After any calls of the root that set positions behind the last call of `setBatchSize`, a worker that
  -- reads the root's packet takes it for no stop signal, has the root's batch size, the root's position
  -- in every entry of the batch, and the root's phase. The root must start with the batch size that its
  -- packet tells and with buffers of the sizes of its bounds, its batch must be neither empty nor larger
  -- than the worker's bound, and the packet must hold no positions of the group's own.
  pub worker_agrees :
      (commands : List (Command to_float)) (root last : Root F) (w : Worker F)
      → Sized to_float root
      → follow_all to_float false commands ≡ true
      → run_commands to_float commands root ≡ ok last
      → last.execution_batch ≢ 0
      → last.execution_batch ≤ w.max_batch_size
      → w.max_batch_size ≤ length w.worker_pipe
      → tp_size_of w.node ≢ 0
      → NoOverride w.node last.packet
      → (w' : Worker F) × (try_read_control_packet to_float (some last.packet) w ≡ ok (true, w'))
        × (w'.is_finished ≡ w.is_finished)
        × (w'.worker_batch ≡ last.execution_batch)
        × (w'.decode_phase ≡ (last.packet.phase == 1))
        × ((i : ℕ)
            → i < last.execution_batch
            → get_elem? w'.worker_pipe i ≡ get_elem? last.position_pipe i)
  unfolding try_read_control_packet
  worker_agrees commands root last w sized placed e some_rows fits room tp none =
      let t : Told to_float last =
        subst (λ p. Standing to_float p last) placed
          (run_commands-Standing to_float false commands root last sized e) in
      let (w', taken, batch, phase, finished, placed) =
        take_span_lem last.packet.position last.packet.batch_size
          (record w { worker_packet = last.packet }) (λ z. some_rows (t.same_batch ∙ z))
          (omega (arith, t.same_batch, fits)) room
          (λ m. omega (arith, t.explicit m, t.same_batch)) in
      (
        w',
        rw (rows t.same_batch, within t.same_batch, span_of_root w.node last.packet tp none, taken)
            refl,
        finished,
        batch ∙ sym t.same_batch,
        phase,
        λ i l. placed i (omega (arith, l, t.same_batch)) ∙ sym (t.placed i l),
      )
    where
      rows : last.execution_batch ≡ last.packet.batch_size → (last.packet.batch_size == 0) ≡ false
      rows same = ground arith

      within :
          last.execution_batch ≡ last.packet.batch_size
          → leb last.packet.batch_size w.max_batch_size ≡ true
      within same = ground arith
