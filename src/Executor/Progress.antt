-- ===== src/Executor/Progress.antt =====
-- src/nn/nn-executor.cpp: the threads never wait for each other in vain, and what they have done at the
-- end.
use prefill_opt.Prelude.{
  ℕ, zero, suc, ◌<◌, ◌≡◌, ◌≢◌, ◌⊎◌, inl, inr, refl, sym, ap, subst, ◌∙◌, Bool, true, false, not,
  ◌||◌, List, [], ◌∷◌, length, get_elem?, some, none, arith, ◌==◌, Bool-cases, Option,
}
use prefill_opt.Executor.{
  Phase, Thread, Run, at_top, loading, leaving, closing, stopped, running, ran, resetting,
  advancing, waiting, forward, goes, act, tick, interleave,
}
use prefill_opt.Executor.Sums.{sum_all_zero, sum_all_one}
use prefill_opt.Executor.Invariant.{
  Fits, FitsThread, counted, resets, advances, IsSound, n_counted, n_resetting, n_advancing,
  counted_added,
}
use prefill_opt.Executor.Barrier.{forward-IsSound, interleave-IsSound}

-- Whether the next action of a thread changes its place.
unfoldable pub can_act : Run → Phase → Bool
can_act s stopped = false
can_act s (waiting k) = not s.is_alive || not (s.current_step_index == k)
can_act s _ = true

search_list :
    (test : Thread → Bool) (xs : List Thread)
    → ((j : ℕ) × (u : Thread) × (get_elem? xs j ≡ some u) × (test u ≡ true))
      ⊎ ((j : ℕ) (u : Thread) → get_elem? xs j ≡ some u → test u ≡ false)
search_list test [] = inr (λ j u h. cc)
search_list test (x ∷ xs) = elim (Bool-cases (test x)) [
  | inl hit ↦ inl (0, x, refl, hit)
  | inr miss ↦ elim (search_list test xs) [
    | inl (j, u, h, e) ↦ inl (suc j, u, h, e)
    | inr all ↦ inr (rest all miss)
  ]
]
  where
    rest :
        ((j : ℕ) (u : Thread) → get_elem? xs j ≡ some u → test u ≡ false)
        → test x ≡ false
        → (j : ℕ) (u : Thread) → get_elem? (x ∷ xs) j ≡ some u
        → test u ≡ false
    rest all miss zero u h = ground (arith, h, miss)
    rest all miss (suc j) u h = all j u h

-- A thread that cannot act is through with the run or waits for the current step.
stuck-Phase :
    (s : Run) (phase : Phase)
    → can_act s phase ≡ false
    → (phase ≡ stopped)
      ⊎ ((k : ℕ) × (phase ≡ waiting k) × (s.is_alive ≡ true) × (s.current_step_index ≡ k))
unfolding can_act
stuck-Phase s at_top h = cc
stuck-Phase s loading h = cc
stuck-Phase s leaving h = cc
stuck-Phase s closing h = cc
stuck-Phase s stopped h = inl refl
stuck-Phase s (running k) h = cc
stuck-Phase s (ran k) h = cc
stuck-Phase s (resetting k) h = cc
stuck-Phase s (advancing k) h = cc
stuck-Phase s (waiting k) h = inr (k, refl, ground (arith, h), ground (arith, h))

-- Everybody waits for the current step: then everybody has been counted, and somebody ends the step.
nobody_ends :
    (s : Run)
    → IsSound s
    → ((j : ℕ) (u : Thread) → get_elem? s.threads j ≡ some u → can_act s u.phase ≡ false)
    → (i : ℕ) (t : Thread) (k : ℕ) → get_elem? s.threads i ≡ some t
    → t.phase ≡ waiting k
    → s.is_alive ≡ true
    → s.current_step_index ≡ k
    → ⊥
unfolding FitsThread Fits resets advances
nobody_ends s v stuck i t k at e live here =
    absurd (omega (arith, v.ended all_counted, no_resets, no_advances))
  where
    c : ℕ
    c = s.current_step_index

    not_over : c < s.n_steps
    not_over =
        let (same, added, place, l) =
          subst (λ phase. Fits s.n_steps s.is_alive c phase t.executed t.added) e (v.fits i t at) in
        omega (arith, here, l)

    waits : (j : ℕ) (u : Thread) → get_elem? s.threads j ≡ some u → u.phase ≡ waiting c
    waits j u h = elim (stuck-Phase s u.phase (stuck j u h)) [
      | inl over ↦
          let (same, place, why) =
            subst (λ phase. Fits s.n_steps s.is_alive c phase u.executed u.added) over
              (v.fits j u h) in
          absurd (ground (arith, why, live, not_over))
      | inr (m, w, alive, now) ↦ w ∙ ap waiting (sym now)
    ]

    all_counted : n_counted s ≡ length s.threads
    all_counted = sum_all_one (counted c) s.threads λ j u h. counted_added c u (
        (subst (λ phase. Fits s.n_steps s.is_alive c phase u.executed u.added) (waits j u h)
          (v.fits j u h)).1)

    no_resets : n_resetting s ≡ 0
    no_resets = sum_all_zero (λ x. resets x.phase) s.threads λ j u h. ap resets (waits j u h)

    no_advances : n_advancing s ≡ 0
    no_advances = sum_all_zero (λ x. advances x.phase) s.threads λ j u h. ap advances (waits j u h)

sound-progress :
    (s : Run)
    → IsSound s
    → (i : ℕ) (t : Thread) → get_elem? s.threads i ≡ some t
    → t.phase ≢ stopped
    → (j : ℕ) × (u : Thread) × (get_elem? s.threads j ≡ some u) × (can_act s u.phase ≡ true)
sound-progress s v i t at busy = elim (search_list (λ u. can_act s u.phase) s.threads) [
  | inl found ↦ found
  | inr stuck ↦ elim (stuck-Phase s t.phase (stuck i t at)) [
    | inl over ↦ absurd (busy over)
    | inr (k, e, live, here) ↦ absurd (nobody_ends s v stuck i t k at e live here)
  ]
]

pub progress :
    (n_threads n_steps : ℕ) (schedule : List (ℕ × Bool))
    → 0 < n_threads
    → (i : ℕ) (t : Thread)
    → get_elem? (interleave schedule (forward n_threads n_steps)).threads i ≡ some t
    → t.phase ≢ stopped
    → (j : ℕ) × (u : Thread) × (get_elem?
          (interleave schedule (forward n_threads n_steps)).threads
          j
        ≡ some u)
      × (can_act (interleave schedule (forward n_threads n_steps)) u.phase ≡ true)
progress n_threads n_steps schedule pos i t at busy =
    sound-progress (interleave schedule (forward n_threads n_steps))
      (interleave-IsSound schedule (forward n_threads n_steps)
        (forward-IsSound n_threads n_steps pos))
      i t at busy

act-n_steps :
    (s : Run) (i : ℕ) (fails : Bool) (t : Thread) (phase : Phase)
    → (act i fails t phase s).n_steps ≡ s.n_steps
unfolding act goes
act-n_steps s i fails t at_top = refl
act-n_steps s i fails t loading = refl
act-n_steps s i true t (running k) = refl
act-n_steps s i false t (running k) = refl
act-n_steps s i fails t (ran k) = refl
act-n_steps s i fails t (resetting k) = refl
act-n_steps s i fails t (advancing k) = refl
act-n_steps s i fails t (waiting k) = ground arith
act-n_steps s i fails t leaving = refl
act-n_steps s i fails t closing = refl
act-n_steps s i fails t stopped = refl

tick-n_steps : (i : ℕ) (fails : Bool) (s : Run) → (tick i fails s).n_steps ≡ s.n_steps
unfolding tick
tick-n_steps i fails s = by_thread (get_elem? s.threads i)
  where
    acts : Option Thread → Run
    acts none = s
    acts (some t) = act i fails t t.phase s

    by_thread : (o : Option Thread) → (acts o).n_steps ≡ s.n_steps
    by_thread none = refl
    by_thread (some t) = act-n_steps s i fails t t.phase

interleave-n_steps :
    (schedule : List (ℕ × Bool)) (s : Run) → (interleave schedule s).n_steps ≡ s.n_steps
unfolding interleave
interleave-n_steps [] s = refl
interleave-n_steps ((i, fails) ∷ schedule) s =
    interleave-n_steps schedule (tick i fails s) ∙ tick-n_steps i fails s

-- A thread that is through with a run in which no step has thrown has executed every step exactly once.
-- There must be a thread.
pub run_complete :
    (n_threads n_steps : ℕ) (schedule : List (ℕ × Bool))
    → 0 < n_threads
    → (interleave schedule (forward n_threads n_steps)).is_alive ≡ true
    → (i : ℕ) (t : Thread)
    → get_elem? (interleave schedule (forward n_threads n_steps)).threads i ≡ some t
    → t.phase ≡ stopped
    → t.executed ≡ n_steps
unfolding FitsThread Fits forward
run_complete n_threads n_steps schedule pos live i t at e =
    let s = interleave schedule (forward n_threads n_steps) in
    let v =
      interleave-IsSound schedule (forward n_threads n_steps)
        (forward-IsSound n_threads n_steps pos) in
    let (same, place, why) =
      subst (λ phase. Fits s.n_steps s.is_alive s.current_step_index phase t.executed t.added) e
        (v.fits i t at) in
    ground (arith, why, live, same, interleave-n_steps schedule (forward n_threads n_steps))
