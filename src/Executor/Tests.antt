-- ===== src/Executor/Tests.antt =====
-- Two threads and one step.
use prefill_opt.Prelude.{ℕ, ◌≤◌, ◌≡◌, refl, arith, Bool, true, false, List, [], ◌∷◌, ◌++◌}
use prefill_opt.Executor.{Thread, running, waiting, stopped, forward, goes, act, tick, interleave}
use prefill_opt.Executor.Barrier.{barrier}
use prefill_opt.Executor.Progress.{can_act, run_complete}

-- What a run computes with.
program : Unit {0}
unfolding forward goes act tick interleave can_act
program = tt

-- The first thread waits, the second is in the step.
abbrev halfway : List (ℕ × Bool)
halfway = (0, false) ∷ (0, false) ∷ (0, false) ∷ (0, false) ∷ (1, false) ∷ (1, false) ∷ []

abbrev in_step : Thread
in_step = record { phase = running 0; executed = 0; added = 0 }

abbrev in_wait : Thread
in_wait = record { phase = waiting 0; executed = 1; added = 1 }

barrier_example : (in_step.executed ≡ 0) × (0 ≤ in_wait.executed) × (in_wait.executed ≤ 1)
unfolding program
barrier_example = barrier 2 1 halfway (omega arith) 1 0 0 in_step in_wait refl refl refl

-- The rest of the run.
abbrev whole : List (ℕ × Bool)
whole =
    halfway
    ++ ((1, false)
        ∷ (1, false)
        ∷ (1, false)
        ∷ (1, false)
        ∷ (1, false)
        ∷ (1, false)
        ∷ (1, false)
        ∷ (0, false)
        ∷ (0, false)
        ∷ (0, false)
        ∷ (0, false)
        ∷ (0, false)
        ∷ [])

ends : (interleave whole (forward 2 1)).is_run_done ≡ true
unfolding program
ends = refl

-- A step that throws in the second thread: both leave.
fails :
    (interleave (halfway ++ (1, true) ∷ (0, false) ∷ (0, false) ∷ []) (forward 2 1)).is_alive
    ≡ false
unfolding program
fails = refl

abbrev over : Thread
over = record { phase = stopped; executed = 1; added = 1 }

run_complete_example : over.executed ≡ 1
unfolding program
run_complete_example = run_complete 2 1 whole (omega arith) refl 1 over refl refl
