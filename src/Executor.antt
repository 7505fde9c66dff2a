-- ===== src/Executor.antt =====
-- src/nn/nn-executor.cpp, the threads of `NnExecutor` in one run of `forward`: the loop over the steps
-- with its atomics. Every atomic access is an action of its own, but for the two reads of the wait, of
-- `isAlive` and of the step, which are one; a run is any sequence of actions of the threads. A shutdown and a later run are left out.
pub mod Sums
pub mod Invariant
pub mod Steps
pub mod Actions
pub mod Barrier
pub mod Progress
mod Tests
use prefill_opt.Prelude.{
  ℕ, zero, suc, ◌+◌, Bool, true, false, Option, none, some, List, [], ◌∷◌, length, get_elem?, set,
  replicate, ◌==◌, if◌then◌else◌,
}

-- Where a thread is: at the head of the loop, before it reads the index of the step, in `executeStep`
-- for a step, before it adds itself to `doneThreadCount`, before it resets that count, before it moves
-- the index on, in the loop that waits for the index to move, before it adds itself to
-- `doneRunThreadCount`, before it sets `isRunDone`, or through with the run.
pub data Phase : Type 0 where
  at_top loading leaving closing stopped : Phase
  running ran resetting advancing waiting : ℕ → Phase

-- `executed` and `added` count the steps that the thread has executed and those for which it has added
-- itself to `doneThreadCount`; the source does not keep them.
pub record Thread : Type 0 where
  pub phase : Phase
  pub executed : ℕ
  pub added : ℕ

pub record Run : Type 0 where
  pub threads : List Thread
  pub n_steps : ℕ
  pub current_step_index : ℕ
  pub done_thread_count : ℕ
  pub done_run_thread_count : ℕ
  pub is_alive : Bool
  pub is_run_done : Bool

-- `forward`, before it waits
unfoldable pub forward : ℕ → ℕ → Run
forward n_threads n_steps = record {
  threads = replicate n_threads (record { phase = at_top; executed = 0; added = 0 });
  n_steps = n_steps;
  current_step_index = 0;
  done_thread_count = 0;
  done_run_thread_count = 0;
  is_alive = true;
  is_run_done = false;
}

-- Thread `i` goes on to a phase.
unfoldable pub goes : ℕ → Thread → Phase → Run → Run
goes i t phase s = record s { threads = set s.threads i (record t { phase = phase }) }

-- The next action of thread `i`, which stands at `phase`. `fails` says whether `executeStep` throws.
unfoldable pub act : ℕ → Bool → Thread → Phase → Run → Run
act i fails t at_top s = goes i t (if s.is_alive then loading else leaving) s
act i fails t loading s =
    let k = s.current_step_index in goes i t (if k == s.n_steps then leaving else running k) s
act i true t (running k) s = record (goes i t leaving s) { is_alive = false }
act i false t (running k) s = record s {
  threads = set s.threads i (record t { phase = ran k; executed = t.executed + 1 });
}
act i fails t (ran k) s =
    let next = if s.done_thread_count + 1 == length s.threads then resetting k else waiting k in
    record s {
      threads = set s.threads i (record t { phase = next; added = t.added + 1 });
      done_thread_count = s.done_thread_count + 1;
    }
act i fails t (resetting k) s = record (goes i t (advancing k) s) { done_thread_count = 0 }
act i fails t (advancing k) s = record (goes i t at_top s) {
  current_step_index = s.current_step_index + 1;
}
act i fails t (waiting k) s =
    let on = goes i t at_top s in
    if s.is_alive then (if s.current_step_index == k then s else on) else on
act i fails t leaving s =
    let next = if s.done_run_thread_count + 1 == length s.threads then closing else stopped in
    record (goes i t next s) { done_run_thread_count = s.done_run_thread_count + 1 }
act i fails t closing s = record (goes i t stopped s) { is_run_done = true }
act i fails t stopped s = s

unfoldable pub tick : ℕ → Bool → Run → Run
tick i fails s = elim (get_elem? s.threads i) [ some t ↦ act i fails t t.phase s | none ↦ s ]

-- Any interleaving: which thread acts, and whether its step throws.
unfoldable pub interleave : List (ℕ × Bool) → Run → Run
interleave [] s = s
interleave ((i, fails) ∷ schedule) s = interleave schedule (tick i fails s)
