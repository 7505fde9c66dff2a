-- ===== src/Control/Worker.antt =====
-- src/app.cpp, `WorkerLlmInference::tryReadControlPacket`.
use prefill_opt.Prelude.{
  ℕ, ◌/◌, Bool, true, false, ◌&&◌, ◌||◌, not, Result, ok, guard, ◌>>=◌, ◌>>◌, Option, none, some,
  List, get_or, ltb, leb, ◌==◌, if◌then◌else◌, add32, sub32,
}
use prefill_opt.Wire.Config.Node.{NodePlace}
use prefill_opt.Control.{
  Packet, ControlError, batch_exceeds_max, active_batch_zero, active_batch_exceeds_max,
  division_by_zero, max_sp_groups, max_control_batch_pos, fill,
}
use prefill_opt.Control.Root.{checked_batch_size}

-- What the reading of a packet changes, with the node's place and bounds
pub record Worker (F : Type 0) : Type 0 where
  pub node : NodePlace
  pub max_batch_size : ℕ
  pub worker_packet : Packet F
  pub worker_batch : ℕ
  pub worker_pipe : List F
  pub is_finished : Bool
  pub decode_phase : Bool
  pub has_prev_x_pipe_row : Bool
  pub skip_consecutive_accepts : ℕ
  pub skip_reject_streak : ℕ
  pub skip_forced_full : ℕ
  pub worker_activation_type : ℕ

-- The position and the batch size of the node's group
unfoldable pub active_span : {F : Type 0} → NodePlace → Packet F → Result ControlError (ℕ × ℕ)
active_span node packet =
    let tp_size = sub32 node.tp_group_end node.tp_group_start in
    let sp_size = sub32 node.sp_group_end node.sp_group_start / tp_size in
    let group =
      get_or packet.sp_groups node.sp_rank (record { group_position = 0; group_batch_size = 0 }) in
    let overridden =
      ltb 1 sp_size && ltb node.sp_rank max_sp_groups && ltb 0 group.group_batch_size in
    do
      guard (not (tp_size == 0)) division_by_zero
      ok (
        if overridden then group.group_position else packet.position,
        if overridden then group.group_batch_size else packet.batch_size,
      )

-- A change of phase forgets the row and the streaks.
unfoldable pub change_phase : {F : Type 0} → Bool → Worker F → Worker F
change_phase decode w =
    let fresh = record w {
      decode_phase = decode;
      has_prev_x_pipe_row = false;
      skip_consecutive_accepts = 0;
      skip_reject_streak = 0;
      skip_forced_full = 0;
    } in
    if (not w.decode_phase && decode) || (w.decode_phase && not decode)
    then fresh
    else record w { decode_phase = decode }

module _ {F : Type 0} (to_float : ℕ → F) where
  -- The position of an entry of the batch
  unfoldable pub entry_position : Packet F → ℕ → ℕ → F
  entry_position packet active_pos i =
      to_float (
        if packet.position_mode == 1 then get_or packet.batch_positions i 0 else add32 active_pos i)

  -- The changes behind the checks, for a batch of `n` entries
  unfoldable pub spanned : ℕ → ℕ → Worker F → Worker F
  spanned active_pos n w =
      let packet = w.worker_packet in
      let kind = packet.transport.activation_type in
      record (change_phase (packet.phase == 1) w) {
        worker_activation_type = if leb kind 3 then kind else w.worker_activation_type;
        worker_pipe = fill (entry_position packet active_pos) 0 n w.worker_pipe;
        worker_batch = n;
      }

  -- The rest of the function, with the position and the batch size of the group. `nBatches` of the
  -- execution is the bound of the worker.
  unfoldable pub take_span : ℕ → ℕ → Worker F → Result ControlError (Worker F)
  take_span active_pos active_batch w = do
    guard (not (active_batch == 0)) active_batch_zero
    guard (leb active_batch w.max_batch_size) active_batch_exceeds_max
    guard (not (w.worker_packet.position_mode == 1) || leb active_batch max_control_batch_pos)
        active_batch_exceeds_max
    checked ← checked_batch_size w.max_batch_size active_batch
    ok (spanned active_pos checked w)

  -- `none` is a packet that has not come in time. The answer is whether one came.
  unfoldable pub try_read_control_packet :
      Option (Packet F) → Worker F → Result ControlError (Bool × Worker F)
  try_read_control_packet none w = ok (false, w)
  try_read_control_packet (some packet) w =
      let received : Worker F = record w { worker_packet = packet } in
      if packet.batch_size == 0 then ok (true, record received { is_finished = true }) else do
        guard (leb packet.batch_size w.max_batch_size) batch_exceeds_max
        (active_pos, active_batch) ← active_span w.node packet
        done ← take_span active_pos active_batch received
        ok (true, done)
