-- ===== src/Control/Tests.antt =====
-- A root with four rows a batch and one worker, floats taken as natural numbers.
use prefill_opt.Prelude.{
  ◌↔◌, ℕ, ◌<◌, ◌≡◌, inr, refl, arith, true, false, List, [], ◌∷◌, some, ok, get_elem?, replicate,
  ltb, leb, ◌>>=◌, add32, sub32,
}
use prefill_opt.Control.{Packet, fill}
use prefill_opt.Control.Root.{
  Root, checked_batch_size, set_decode_phase, set_batch_size, set_position, write_positions,
  set_batch_positions, for_root, set_sp_group_position, finish_packet,
}
use prefill_opt.Control.Worker.{
  Worker, active_span, change_phase, take_span, spanned, entry_position, try_read_control_packet,
}
use prefill_opt.Control.Told.{Sized, Command, apply, batch, move, explicit_positions, decode_phase}
use prefill_opt.Control.Told.Calls.{run_commands}
use prefill_opt.Control.Agree.{worker_agrees}
use prefill_opt.Control.Skip.{
  SkipState, SkipInput, InBounds, MaySkip, evaluate_stage_skip_decision,
  is_stage_skip_decision_stage, passes_gate, decide, skip_lem,
}

-- What a run computes with.
program : Unit {0}
unfolding checked_batch_size set_decode_phase set_batch_size set_position write_positions
    set_batch_positions for_root set_sp_group_position finish_packet active_span change_phase
    take_span spanned entry_position try_read_control_packet apply run_commands add32 sub32 fill
program = tt

abbrev exact : ℕ → ℕ
exact n = n

abbrev packet : Packet ℕ
packet = record {
  position = 0;
  batch_size = 0;
  phase = 0;
  is_last_prefill_chunk = 0;
  position_mode = 0;
  transport = record {
    token_only_mode = 0;
    top_k_count = 0;
    activation_type = 0;
    pipeline_delta = 0;
    pipeline_delta_min_bytes = 0;
    pipeline_chunk_bytes = 0;
  };
  skip = record {
    skip_shadow = 0;
    skip_enabled = 1;
    skip_target = 2;
    skip_theta = 5;
    skip_alpha = 9;
    skip_max_consecutive = 2;
    skip_max_reject_streak = 3;
    skip_log = 0;
  };
  batch_positions = replicate 512 0;
  sp_groups = replicate 8 (record { group_position = 0; group_batch_size = 0 });
}

abbrev root : Root ℕ
root = record {
  packet = packet;
  execution_batch = 0;
  n_batches = 4;
  seq_len = 100;
  position_pipe = replicate 4 0;
  token_pipe = replicate 4 0;
}

abbrev worker : Worker ℕ
worker = record {
  node = record {
    node_index = 1;
    pp_rank = 1;
    tp_rank = 0;
    tp_group_start = 1;
    tp_group_end = 2;
    sp_rank = 0;
    sp_group_start = 1;
    sp_group_end = 2;
  };
  max_batch_size = 4;
  worker_packet = packet;
  worker_batch = 0;
  worker_pipe = replicate 4 0;
  is_finished = false;
  decode_phase = false;
  has_prev_x_pipe_row = false;
  skip_consecutive_accepts = 0;
  skip_reject_streak = 0;
  skip_forced_full = 0;
  worker_activation_type = 0;
}

-- Group 0 without rows is the root's own, and its packet the stop signal.
idle_root :
    (set_sp_group_position exact 0 7 0 root >>= λ r.
    try_read_control_packet exact (some r.packet) worker)
    ≡ ok (
      true,
      record worker {
        worker_packet = record packet {
          position = 7;
          sp_groups =
              record { group_position = 7; group_batch_size = 0 }
              ∷ replicate 7 (record { group_position = 0; group_batch_size = 0 });
        };
        is_finished = true;
      },
    )
unfolding program
idle_root = refl

root-Sized : Sized exact root
root-Sized = (omega arith, refl, refl, omega arith)

abbrev commands : List (Command exact)
commands = batch 3 ∷ decode_phase true ∷ move 5 ∷ explicit_positions (some (9 ∷ 4 ∷ [])) ∷ []

abbrev last : Root ℕ
last = record root {
  packet = record packet {
    position = 9;
    batch_size = 2;
    phase = 1;
    is_last_prefill_chunk = 1;
    position_mode = 1;
    batch_positions = 9 ∷ 4 ∷ replicate 510 0;
  };
  execution_batch = 2;
  position_pipe = 9 ∷ 4 ∷ 7 ∷ 0 ∷ [];
}

reached : run_commands exact commands root ≡ ok last
unfolding program
reached = refl

worker_agrees_example :
    (w' : Worker ℕ) × (try_read_control_packet exact (some last.packet) worker ≡ ok (true, w'))
    × (w'.is_finished ≡ false)
    × (w'.worker_batch ≡ 2)
    × (w'.decode_phase ≡ true)
    × ((i : ℕ) → i < 2 → get_elem? w'.worker_pipe i ≡ get_elem? last.position_pipe i)
unfolding program
worker_agrees_example =
    worker_agrees exact commands root last worker root-Sized refl reached (λ e. omega (arith, e))
      (omega arith) (omega arith) (λ e. omega (arith, e)) (inr refl)

abbrev streaks : SkipState ℕ
streaks = record {
  has_decision = false;
  decision_score = 0;
  decision_accept = 0;
  consecutive_accepts = 1;
  reject_streak = 0;
  forced_full = 0;
}

abbrev input : SkipInput ℕ
input = record { stage_rank = 1; decoding = true; batch = 1; has_delta_norm = true; delta_norm = 3 }

abbrev decision : SkipState ℕ
decision = evaluate_stage_skip_decision leb ltb 0 1 (λ a b. a) packet input streaks

-- The second token in a row is skipped.
skips : decision.consecutive_accepts ≡ 2
unfolding evaluate_stage_skip_decision is_stage_skip_decision_stage passes_gate decide add32
skips = refl

skip_lem_example :
    InBounds leb ltb 0 1 (λ a b. a) packet.skip decision
    × ((decision.decision_accept ≡ 1) ↔ MaySkip leb ltb 0 1 (λ a b. a) packet input streaks)
skip_lem_example =
    skip_lem leb ltb 0 1 (λ a b. a) packet input streaks (omega arith) (omega arith)
      (record { few_accepts = omega arith; few_rejects = omega arith })
