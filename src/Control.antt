-- ===== src/Control.antt =====
-- src/app.hpp and src/app.cpp, the control packets with which the root tells its workers what to run.
-- Floats are a parameter; a position is written to a pipe as a float.
pub mod Root
pub mod Worker
pub mod Skip
pub mod Fill
pub mod Told
pub mod Positions
pub mod Agree
pub mod Bounds
mod Tests
use prefill_opt.Prelude.{ℕ, zero, suc, ◌+◌, List, set}

abbrev pub max_sp_groups : ℕ
max_sp_groups = 8

abbrev pub max_control_batch_pos : ℕ
max_control_batch_pos = 512

-- `spGroups[i]`; a group of batch size 0 has no override.
pub record SpGroup : Type 0 where
  pub group_position : ℕ
  pub group_batch_size : ℕ

-- The fields of `LlmControlPacket` on skipping a stage, but for the name of the log file
pub record SkipOptions (F : Type 0) : Type 0 where
  pub skip_shadow : ℕ
  pub skip_enabled : ℕ
  pub skip_target : ℕ
  pub skip_theta : F
  pub skip_alpha : F
  pub skip_max_consecutive : ℕ
  pub skip_max_reject_streak : ℕ
  pub skip_log : ℕ

-- The fields of `LlmControlPacket` on the transport between stages
pub record Transport : Type 0 where
  pub token_only_mode : ℕ
  pub top_k_count : ℕ
  pub activation_type : ℕ
  pub pipeline_delta : ℕ
  pub pipeline_delta_min_bytes : ℕ
  pub pipeline_chunk_bytes : ℕ

-- `LlmControlPacket`
pub record Packet (F : Type 0) : Type 0 where
  pub position : ℕ
  pub batch_size : ℕ
  pub phase : ℕ
  pub is_last_prefill_chunk : ℕ
  pub position_mode : ℕ
  pub transport : Transport
  pub skip : SkipOptions F
  pub batch_positions : List ℕ
  pub sp_groups : List SpGroup

pub data ControlError : Type 0 where
  assertion positions_null invalid_batch_size position_out_of_range : ControlError
  batch_exceeds_max active_batch_zero active_batch_exceeds_max division_by_zero : ControlError

-- `for (i = from; ...; i++) xs[i] = value(i)`, `n` times
unfoldable pub fill {ℓ} : {A : Type ℓ} → (ℕ → A) → ℕ → ℕ → List A → List A
fill value from zero xs = xs
fill value from (suc n) xs = fill value (from + 1) n (set xs from (value from))
