-- ===== src/Control/Root.antt =====
-- src/app.cpp, the setters of `RootLlmInference`, and `NnNetExecution::setBatchSize`.
use prefill_opt.Prelude.{
  ℕ, ◌+◌, Bool, ◌&&◌, Result, ok, err, guard, ◌>>=◌, ◌>>◌, Option, none, some, List, [], ◌∷◌,
  length, get_or, set, ltb, leb, ◌==◌, if◌then◌else◌, add32, sub32,
}
use prefill_opt.Control.{
  Packet, SpGroup, ControlError, assertion, positions_null, invalid_batch_size,
  position_out_of_range, max_sp_groups, max_control_batch_pos, fill,
}

-- `NnNetExecution::setBatchSize`, for `nBatches` and the new size
unfoldable pub checked_batch_size : ℕ → ℕ → Result ControlError ℕ
checked_batch_size n_batches batch_size = do
  guard (leb batch_size n_batches) assertion
  ok batch_size

-- The state that the setters change: the packet, the batch size of the execution, and the pipes.
pub record Root (F : Type 0) : Type 0 where
  pub packet : Packet F
  pub execution_batch : ℕ
  pub n_batches : ℕ
  pub seq_len : ℕ
  pub position_pipe : List F
  pub token_pipe : List F

module _ {F : Type 0} (to_float : ℕ → F) where
  unfoldable pub set_decode_phase : Bool → Root F → Root F
  set_decode_phase is_decode root =
      let last = root.packet.is_last_prefill_chunk in
      record root {
        packet = record (root.packet) {
          phase = if is_decode then 1 else 0;
          is_last_prefill_chunk = if is_decode then 1 else last;
        };
      }

  unfoldable pub set_last_prefill_chunk : Bool → Root F → Root F
  set_last_prefill_chunk is_last root = record root {
    packet = record (root.packet) { is_last_prefill_chunk = if is_last then 1 else 0 };
  }

  unfoldable pub set_batch_size : ℕ → Root F → Result ControlError (Root F)
  set_batch_size batch_size root = do
    checked ← checked_batch_size root.n_batches batch_size
    ok (record root {
      packet = record (root.packet) { is_last_prefill_chunk = 1; batch_size = checked };
      execution_batch = checked;
    })

  unfoldable pub set_position : ℕ → Root F → Result ControlError (Root F)
  set_position position root = do
    guard (ltb (sub32 (add32 position root.execution_batch) 1) root.seq_len) assertion
    ok (record root {
      packet = record (root.packet) { position = position; position_mode = 0 };
      position_pipe =
          fill (λ i. to_float (add32 position i)) 0 root.execution_batch root.position_pipe;
    })

  -- The loop of `setBatchPositions` from `i` on, over the positions that are left
  unfoldable pub write_positions : ℕ → List ℕ → Root F → Result ControlError (Root F)
  write_positions i [] root = ok root
  write_positions i (p ∷ positions) root =
      let next = write_positions (i + 1) positions in
      do
        guard (ltb p root.seq_len) position_out_of_range
        next (record root {
          packet = record (root.packet) { batch_positions = set root.packet.batch_positions i p };
          position_pipe = set root.position_pipe i (to_float p);
        })

  -- `none` is a null pointer; the batch size is the length of the positions.
  unfoldable pub set_batch_positions : Option (List ℕ) → Root F → Result ControlError (Root F)
  set_batch_positions none root = err positions_null
  set_batch_positions (some positions) root = do
    guard (leb 1 (length positions) && leb (length positions) max_control_batch_pos)
        invalid_batch_size
    sized ← set_batch_size (length positions) root
    write_positions 0 positions (record sized {
      packet = record (sized.packet) { position_mode = 1; position = get_or positions 0 0 };
    })

  unfoldable pub set_token : ℕ → ℕ → Root F → Result ControlError (Root F)
  set_token batch_index token root = do
    guard (ltb batch_index root.execution_batch) assertion
    ok (record root { token_pipe = set root.token_pipe batch_index (to_float token) })

  -- The part of `setSpGroupPosition` for the root's own group
  unfoldable pub for_root : ℕ → ℕ → Root F → Result ControlError (Root F)
  for_root position batch_size told = do
    checked ← checked_batch_size told.n_batches batch_size
    ok (record told {
      packet = record (told.packet) {
        batch_size = checked;
        position = position;
        position_mode = 0;
      };
      execution_batch = checked;
      position_pipe = fill (λ i. to_float (add32 position i)) 0 checked told.position_pipe;
    })

  unfoldable pub set_sp_group_position : ℕ → ℕ → ℕ → Root F → Result ControlError (Root F)
  set_sp_group_position group position batch_size root = do
    guard (ltb group max_sp_groups) assertion
    let override : SpGroup = record { group_position = position; group_batch_size = batch_size }
    let told : Root F = record root {
      packet = record (root.packet) { sp_groups = set root.packet.sp_groups group override };
    }
    if group == 0 then for_root position batch_size told else ok told

  unfoldable pub clear_sp_group_overrides : Root F → Root F
  clear_sp_group_overrides root = record root {
    packet = record (root.packet) {
      sp_groups =
          fill (λ i. record { group_position = 0; group_batch_size = 0 }) 0 max_sp_groups
            root.packet.sp_groups;
    };
  }

  -- The packet that `finish` sends: the stop signal
  unfoldable pub finish_packet : Root F → Packet F
  finish_packet root = record (root.packet) { batch_size = 0 }
