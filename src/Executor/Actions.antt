-- ===== src/Executor/Actions.antt =====
-- src/nn/nn-executor.cpp: each action keeps the invariant.
use prefill_opt.Prelude.{
  ℕ, ◌+◌, ◌<◌, ◌≡◌, ◌⊎◌, inl, inr, refl, sym, ap, subst, ◌∙◌, Bool, true, false, none, some, length,
  get_elem?, set, ◌==◌, ==_iff, if◌then◌else◌, arith, Bool-cases, Option-cases,
}
use prefill_opt.Executor.{
  Phase, Thread, Run, at_top, loading, leaving, closing, stopped, running, ran, resetting,
  advancing, waiting, goes, act, tick,
}
use prefill_opt.Executor.Invariant.{
  Fits, FitsThread, counted, resets, advances, IsSound, unread, dead,
}
use prefill_opt.Executor.Steps.{quiet, adds, resets_count, moves_on}

module _ (s : Run) (i : ℕ) (t : Thread) (at : get_elem? s.threads i ≡ some t) (v : IsSound s) where
  abbrev F : Phase → ℕ → ℕ → Type 0
  F phase ex ad = Fits s.n_steps s.is_alive s.current_step_index phase ex ad

  -- The thread only moves to another place.
  goes-IsSound :
      (phase : Phase)
      → F phase t.executed t.added
      → resets phase ≡ resets t.phase
      → advances phase ≡ advances t.phase
      → IsSound (goes i t phase s)
  unfolding goes FitsThread counted
  goes-IsSound phase new r a = quiet s i t (record t { phase = phase }) at v new refl r a

act-IsSound :
    (s : Run) (i : ℕ) (fails : Bool) (t : Thread) (phase : Phase)
    → t.phase ≡ phase
    → get_elem? s.threads i ≡ some t
    → IsSound s
    → Fits s.n_steps s.is_alive s.current_step_index phase t.executed t.added
    → IsSound (act i fails t phase s)
unfolding act goes Fits FitsThread resets advances counted
act-IsSound s i fails t at_top e at v (same, place) = elim (Bool-cases s.is_alive) [
  | inl live ↦
      subst (λ b. IsSound (goes i t (if b then loading else leaving) s)) (sym live)
        (goes-IsSound s i t at v loading (same, ground (arith, place, live)) (ap resets (sym e))
          (ap advances (sym e)))
  | inr gone ↦
      subst (λ b. IsSound (goes i t (if b then loading else leaving) s)) (sym gone)
        (goes-IsSound s i t at v leaving (same, ground (arith, place), inl gone) (ap resets (sym e))
          (ap advances (sym e)))
]
act-IsSound s i fails t loading e at v (same, here) =
    elim (Bool-cases (s.current_step_index == s.n_steps)) [
      | inl over ↦
          let done : s.current_step_index ≡ s.n_steps = ground (arith, over) in
          subst (λ b. IsSound (goes i t (if b then leaving else running s.current_step_index) s))
            (sym over)
            (goes-IsSound s i t at v leaving (same, inl here, inr (done, here ∙ done))
              (ap resets (sym e)) (ap advances (sym e)))
      | inr more ↦
          let left : s.current_step_index < s.n_steps = ground (arith, more, v.in_range) in
          subst (λ b. IsSound (goes i t (if b then leaving else running s.current_step_index) s))
            (sym more)
            (goes-IsSound s i t at v (running s.current_step_index) (same, here, refl, left)
              (ap resets (sym e)) (ap advances (sym e)))
    ]
act-IsSound s i true t (running k) e at v (same, here, k_is, l) =
    quiet (record s { is_alive = false }) i t (record t { phase = leaving }) at (dead s v)
      (same, inl here, inl refl) refl (ap resets (sym e)) (ap advances (sym e))
act-IsSound s i false t (running k) e at v (same, here, k_is, l) =
    quiet s i t (record t { phase = ran k; executed = t.executed + 1 }) at v
      (ap (λ x. x + 1) same, here, k_is, l) refl (ap resets (sym e)) (ap advances (sym e))
act-IsSound s i fails t (ran k) e at v (same, here, k_is, l) =
    elim (Bool-cases (s.done_thread_count + 1 == length s.threads)) [
      | inl last ↦
          subst
            (λ b. IsSound (record s {
              threads =
                  set s.threads i (record t {
                    phase = if b then resetting k else waiting k;
                    added = t.added + 1;
                  });
              done_thread_count = s.done_thread_count + 1;
            }))
            (sym last)
            (adds s i t (record t { phase = resetting k; added = t.added + 1 }) at v
              (same, ap (λ x. x + 1) here, k_is, l) here (ap (λ x. x + 1) here) (ap resets e)
              (ap advances e) refl (λ _. refl) (λ ne. absurd (ne ((==_iff _ _).0 last))))
      | inr more ↦
          subst
            (λ b. IsSound (record s {
              threads =
                  set s.threads i (record t {
                    phase = if b then resetting k else waiting k;
                    added = t.added + 1;
                  });
              done_thread_count = s.done_thread_count + 1;
            }))
            (sym more)
            (adds s i t (record t { phase = waiting k; added = t.added + 1 }) at v
              (same, ap (λ x. x + 1) (here ∙ sym k_is), inl k_is, omega (arith, k_is, l)) here
              (ap (λ x. x + 1) here) (ap resets e) (ap advances e) refl
              (λ all. absurd (ground (arith, all, more))) (λ _. refl))
    ]
act-IsSound s i fails t (resetting k) e at v (same, added, k_is, l) =
    resets_count s i t (record t { phase = advancing k }) at v (same, added, k_is, l) refl
      (ap resets e) (ap advances e) refl refl
act-IsSound s i fails t (advancing k) e at v (same, added, k_is, l) =
    moves_on s i t (record t { phase = at_top }) at v refl refl refl added same l (ap resets e)
      (ap advances e)
act-IsSound s i fails t (waiting k) e at v (same, added, place, l) =
    let on = goes i t at_top s in
    let moved : ((t.added ≡ s.current_step_index)
          ⊎ ((s.is_alive ≡ false) × (t.added ≡ s.current_step_index + 1)))
        → IsSound on =
      λ free.
        goes-IsSound s i t at v at_top (same, free) (ap resets (sym e)) (ap advances (sym e)) in
    elim (Bool-cases s.is_alive) [
      | inr gone ↦
          subst (λ b. IsSound (if b then (if s.current_step_index == k then s else on) else on))
            (sym gone) (moved (ground (arith, place, added, gone)))
      | inl live ↦
          subst (λ b. IsSound (if b then (if s.current_step_index == k then s else on) else on))
            (sym live)
            (elim (Bool-cases (s.current_step_index == k)) [
              | inl here ↦ subst (λ b. IsSound (if b then s else on)) (sym here) v
              | inr past ↦
                  subst (λ b. IsSound (if b then s else on)) (sym past)
                    (moved (inl (ground (arith, place, added, past))))
            ])
    ]
act-IsSound s i fails t leaving e at v h =
    elim (Bool-cases (s.done_run_thread_count + 1 == length s.threads)) [
      | inl last ↦
          subst
            (λ b. IsSound (record (goes i t (if b then closing else stopped) s) {
              done_run_thread_count = s.done_run_thread_count + 1;
            }))
            (sym last)
            (unread (goes i t closing s) (s.done_run_thread_count + 1) s.is_run_done
              (goes-IsSound s i t at v closing h (ap resets (sym e)) (ap advances (sym e))))
      | inr more ↦
          subst
            (λ b. IsSound (record (goes i t (if b then closing else stopped) s) {
              done_run_thread_count = s.done_run_thread_count + 1;
            }))
            (sym more)
            (unread (goes i t stopped s) (s.done_run_thread_count + 1) s.is_run_done
              (goes-IsSound s i t at v stopped h (ap resets (sym e)) (ap advances (sym e))))
    ]
act-IsSound s i fails t closing e at v h =
    unread (goes i t stopped s) s.done_run_thread_count true
      (goes-IsSound s i t at v stopped h (ap resets (sym e)) (ap advances (sym e)))
act-IsSound s i fails t stopped e at v h = v

pub tick-IsSound : (i : ℕ) (fails : Bool) (s : Run) → IsSound s → IsSound (tick i fails s)
unfolding tick FitsThread
tick-IsSound i fails s v = elim (Option-cases (get_elem? s.threads i)) [
  | inl none_there ↦
      subst (λ o. IsSound (elim o [ some t ↦ act i fails t t.phase s | none ↦ s ])) (sym none_there)
        v
  | inr (t, at) ↦
      subst (λ o. IsSound (elim o [ some t ↦ act i fails t t.phase s | none ↦ s ])) (sym at)
        (act-IsSound s i fails t t.phase refl at v (v.fits i t at))
]
