-- ===== src/Executor/Barrier.antt =====
-- src/nn/nn-executor.cpp: no thread is more than one step ahead of another.
use prefill_opt.Prelude.{
  ℕ, ◌+◌, ◌<◌, ◌≤◌, ◌≡◌, inl, refl, sym, ap, subst, Bool, true, List, [], ◌∷◌, get_elem?, some,
  replicate, arith, length-replicate,
}
use prefill_opt.Executor.{
  Phase, Thread, Run, at_top, loading, leaving, closing, stopped, running, ran, resetting,
  advancing, waiting, forward, interleave, tick,
}
use prefill_opt.Executor.Sums.{sum, sum_all_zero, get_elem?-replicate}
use prefill_opt.Executor.Invariant.{
  Fits, FitsThread, counted, resets, advances, IsSound, counted_other,
}
use prefill_opt.Executor.Actions.{tick-IsSound}

pub forward-IsSound : (n_threads n_steps : ℕ) → 0 < n_threads → IsSound (forward n_threads n_steps)
unfolding forward FitsThread Fits resets advances
forward-IsSound n_threads n_steps pos = record {
  fits = λ i t h.
      subst (FitsThread n_steps true 0) (sym (get_elem?-replicate n_threads i fresh h))
        (refl, inl refl);
  in_range = omega arith;
  count = λ h. sym idle;
  reset = λ h. refl;
  full = λ h. absurd (omega (arith, h, none_resets, none_advances));
  ended = λ h. absurd (omega (arith, h, idle, length-replicate n_threads fresh, pos));
  one = omega (arith, none_resets, none_advances);
}
  where
    fresh : Thread
    fresh = record { phase = at_top; executed = 0; added = 0 }

    zero_added : (t : Thread) → t ≡ fresh → t.added ≡ 0
    zero_added t e = ap (λ x. x.added) e

    idle : sum (counted 0) (replicate n_threads fresh) ≡ 0
    idle = sum_all_zero (counted 0) (replicate n_threads fresh) λ i t h.
        counted_other 0 t
          (λ e. omega (arith, e, zero_added t (get_elem?-replicate n_threads i fresh h)))

    none_resets : sum (λ t. resets t.phase) (replicate n_threads fresh) ≡ 0
    none_resets =
        sum_all_zero (λ t. resets t.phase) (replicate n_threads fresh)
          λ i t h. ap (λ x. resets x.phase) (get_elem?-replicate n_threads i fresh h)

    none_advances : sum (λ t. advances t.phase) (replicate n_threads fresh) ≡ 0
    none_advances =
        sum_all_zero (λ t. advances t.phase) (replicate n_threads fresh)
          λ i t h. ap (λ x. advances x.phase) (get_elem?-replicate n_threads i fresh h)

pub interleave-IsSound :
    (schedule : List (ℕ × Bool)) (s : Run) → IsSound s → IsSound (interleave schedule s)
unfolding interleave
interleave-IsSound [] s v = v
interleave-IsSound ((i, fails) ∷ schedule) s v =
    interleave-IsSound schedule (tick i fails s) (tick-IsSound i fails s v)

executed-range :
    (n : ℕ) (alive : Bool) (c : ℕ) (t : Thread)
    → FitsThread n alive c t
    → (c ≤ t.executed) × (t.executed ≤ c + 1)
unfolding FitsThread Fits
executed-range n alive c t h = by_phase t.phase h
  where
    by_phase :
        (phase : Phase)
        → Fits n alive c phase t.executed t.added
        → (c ≤ t.executed) × (t.executed ≤ c + 1)
    by_phase at_top h = ground (arith, h)
    by_phase loading h = ground (arith, h)
    by_phase (running k) h = ground (arith, h)
    by_phase (ran k) h = ground (arith, h)
    by_phase (resetting k) h = ground (arith, h)
    by_phase (advancing k) h = ground (arith, h)
    by_phase (waiting k) h = ground (arith, h)
    by_phase leaving h = ground (arith, h)
    by_phase closing h = ground (arith, h)
    by_phase stopped h = ground (arith, h)

running-executed :
    (n : ℕ) (alive : Bool) (c : ℕ) (t : Thread) (k : ℕ)
    → FitsThread n alive c t
    → t.phase ≡ running k
    → (k ≡ c) × (t.executed ≡ k) × (k < n)
unfolding FitsThread Fits
running-executed n alive c t k h e =
    let (same, here, k_is, l) = subst (λ phase. Fits n alive c phase t.executed t.added) e h in
    (k_is, omega (arith, same, here, k_is), omega (arith, k_is, l))

-- At any time of any interleaving of the threads of a run, whether or not a step throws, a thread that
-- is in step `k` has executed exactly the `k` steps before it, and every other thread has executed all
-- of those too, and at most step `k` besides. There must be a thread.
pub barrier :
    (n_threads n_steps : ℕ) (schedule : List (ℕ × Bool))
    → 0 < n_threads
    → (i j k : ℕ) (t u : Thread)
    → get_elem? (interleave schedule (forward n_threads n_steps)).threads i ≡ some t
    → get_elem? (interleave schedule (forward n_threads n_steps)).threads j ≡ some u
    → t.phase ≡ running k
    → (t.executed ≡ k) × (k ≤ u.executed) × (u.executed ≤ k + 1)
barrier n_threads n_steps schedule pos i j k t u at there e =
    let s = interleave schedule (forward n_threads n_steps) in
    let v =
      interleave-IsSound schedule (forward n_threads n_steps)
        (forward-IsSound n_threads n_steps pos) in
    let (k_is, done, l) =
      running-executed s.n_steps s.is_alive s.current_step_index t k (v.fits i t at) e in
    let (low, high) =
      executed-range s.n_steps s.is_alive s.current_step_index u (v.fits j u there) in
    (done, omega (arith, low, k_is), omega (arith, high, k_is))
