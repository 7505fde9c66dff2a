-- ===== src/Executor/Steps.antt =====
-- src/nn/nn-executor.cpp: what an action changes in the sums.
use prefill_opt.Prelude.{
  ℕ, ◌+◌, ◌<◌, ◌≤◌, ◌≡◌, ◌≢◌, inl, inr, refl, sym, ap, subst, ◌∙◌, Bool, some, List, length,
  get_elem?, set, ◌==◌, if◌then◌else◌, arith, length-set, ℕ_discrete, get_elem?-lt,
}
use prefill_opt.Executor.{Thread, Run, at_top}
use prefill_opt.Executor.Sums.{
  sum, sum-set, sum_zero, sum_all_zero, sum_full, sum_pos, get_elem?-set,
}
use prefill_opt.Executor.Invariant.{
  Fits, FitsThread, counted, resets, advances, n_counted, n_resetting, n_advancing, IsSound,
  next-Fits, counted-le, counted_one, counted_added, counted_other,
}

-- A thread's weights before and after its own action, and the rest of the state as it was.
module _ (s : Run) (i : ℕ) (t u : Thread) (at : get_elem? s.threads i ≡ some t) where
  abbrev ts : List Thread
  ts = set s.threads i u

  others :
      (n : ℕ) (alive : Bool) (c : ℕ)
      → FitsThread n alive c u
      → ((j : ℕ) (v : Thread) → get_elem? s.threads j ≡ some v → FitsThread n alive c v)
      → (j : ℕ) (v : Thread) → get_elem? ts j ≡ some v
      → FitsThread n alive c v
  others n alive c new old j v h = elim (get_elem?-set s.threads i j u h) [
    | inl same ↦ subst (FitsThread n alive c) (sym same) new
    | inr before ↦ old j v before
  ]

  -- An action that changes neither the index nor the count.
  pub quiet :
      IsSound s
      → FitsThread s.n_steps s.is_alive s.current_step_index u
      → counted s.current_step_index u ≡ counted s.current_step_index t
      → resets u.phase ≡ resets t.phase
      → advances u.phase ≡ advances t.phase
      → IsSound (record s { threads = ts })
  quiet v new c r a =
      let ec = sum-set (counted s.current_step_index) s.threads i u at in
      let er = sum-set (λ x. resets x.phase) s.threads i u at in
      let ea = sum-set (λ x. advances x.phase) s.threads i u at in
      let el = length-set s.threads i u in
      record {
        fits = others s.n_steps s.is_alive s.current_step_index new v.fits;
        in_range = v.in_range;
        count = λ h. omega (arith, v.count (omega (arith, h, ea, a)), ec, c);
        reset = λ h. omega (arith, v.reset (omega (arith, h, ea, a)));
        full = λ h. omega (arith, v.full (omega (arith, h, ea, a, er, r)), ec, c, el);
        ended = λ h. omega (arith, v.ended (omega (arith, h, ec, c, el)), ea, a, er, r);
        one = omega (arith, v.one, ea, a, er, r);
      }

  -- The thread adds itself to the count.
  pub adds :
      IsSound s
      → FitsThread s.n_steps s.is_alive s.current_step_index u
      → t.added ≡ s.current_step_index
      → u.added ≡ s.current_step_index + 1
      → resets t.phase ≡ 0
      → advances t.phase ≡ 0
      → advances u.phase ≡ 0
      → (s.done_thread_count + 1 ≡ length s.threads → resets u.phase ≡ 1)
      → (s.done_thread_count + 1 ≢ length s.threads → resets u.phase ≡ 0)
      → IsSound (record s { threads = ts; done_thread_count = s.done_thread_count + 1 })
  adds v new before after rt at0 au last other = record {
    fits = others s.n_steps s.is_alive s.current_step_index new v.fits;
    in_range = v.in_range;
    count = λ h. omega (arith, done, ec, ct, cu);
    reset = λ h. absurd (omega (arith, h, ea, at0, au, none));
    full = λ h. elim (ℕ_discrete (s.done_thread_count + 1) (length s.threads)) [
      | yes all ↦ omega (arith, all, done, ec, ct, cu, el)
      | no few ↦ absurd (omega (arith, h, ea, at0, au, none, er, rt, other few))
    ];
    ended = λ h.
        let all : s.done_thread_count + 1 ≡ length s.threads =
          omega (arith, h, done, ec, ct, cu, el) in
        omega (arith, ea, at0, au, none, er, rt, last all);
    one = elim (ℕ_discrete (s.done_thread_count + 1) (length s.threads)) [
      | yes all ↦ omega (arith, ea, at0, au, none, er, rt, last all)
      | no few ↦ omega (arith, ea, at0, au, none, er, rt, other few)
    ];
  }
    where
      c : ℕ
      c = s.current_step_index

      ct : counted c t ≡ 0
      ct = counted_other c t (λ e. omega (arith, e, before))

      cu : counted c u ≡ 1
      cu = counted_added c u after

      none : n_resetting s + n_advancing s ≡ 0
      none = elim (ℕ_discrete (n_resetting s + n_advancing s) 1) [
        | yes e ↦
            absurd
              (omega (arith, ct, sum_full (counted c) s.threads i (counted-le c) (v.full e) at))
        | no e ↦ omega (arith, e, v.one)
      ]

      done : s.done_thread_count ≡ n_counted s
      done = v.count (omega (arith, none))

      ec : sum (counted c) ts + counted c t ≡ n_counted s + counted c u
      ec = sum-set (counted c) s.threads i u at

      er : sum (λ x. resets x.phase) ts + resets t.phase ≡ n_resetting s + resets u.phase
      er = sum-set (λ x. resets x.phase) s.threads i u at

      ea : sum (λ x. advances x.phase) ts + advances t.phase ≡ n_advancing s + advances u.phase
      ea = sum-set (λ x. advances x.phase) s.threads i u at

      el : length ts ≡ length s.threads
      el = length-set s.threads i u

  pub resets_count :
      IsSound s
      → FitsThread s.n_steps s.is_alive s.current_step_index u
      → t.added ≡ u.added
      → resets t.phase ≡ 1
      → advances t.phase ≡ 0
      → resets u.phase ≡ 0
      → advances u.phase ≡ 1
      → IsSound (record s { threads = ts; done_thread_count = 0 })
  unfolding counted
  resets_count v new same rt at0 ru au = record {
    fits = others s.n_steps s.is_alive s.current_step_index new v.fits;
    in_range = v.in_range;
    count = λ h. absurd (omega (arith, h, ea, at0, au));
    reset = λ h. refl;
    full = λ h. omega (arith, v.full one, ec, cs, length-set s.threads i u);
    ended = λ h. omega (arith, er, ea, rt, at0, ru, au, one);
    one = omega (arith, er, ea, rt, at0, ru, au, one);
  }
    where
      cs : counted s.current_step_index u ≡ counted s.current_step_index t
      cs = ap (λ k. if k == s.current_step_index + 1 then 1 else 0) (sym same)

      ec :
          sum (counted s.current_step_index) ts + counted s.current_step_index t
          ≡ n_counted s + counted s.current_step_index u
      ec = sum-set (counted s.current_step_index) s.threads i u at

      er : sum (λ x. resets x.phase) ts + resets t.phase ≡ n_resetting s + resets u.phase
      er = sum-set (λ x. resets x.phase) s.threads i u at

      ea : sum (λ x. advances x.phase) ts + advances t.phase ≡ n_advancing s + advances u.phase
      ea = sum-set (λ x. advances x.phase) s.threads i u at

      one : n_resetting s + n_advancing s ≡ 1
      one = omega (arith, v.one, sum_pos (λ x. resets x.phase) s.threads i rt at)

  pub moves_on :
      IsSound s
      → u.phase ≡ at_top
      → u.executed ≡ t.executed
      → u.added ≡ t.added
      → t.added ≡ s.current_step_index + 1
      → t.executed ≡ t.added
      → s.current_step_index < s.n_steps
      → resets t.phase ≡ 0
      → advances t.phase ≡ 1
      → IsSound (record s { threads = ts; current_step_index = s.current_step_index + 1 })
  unfolding resets advances Fits FitsThread
  moves_on v top ex ad added same inside rt at1 = record {
    fits = λ j w h. elim (get_elem?-set s.threads i j u h) [
      | inl e ↦ subst (FitsThread s.n_steps s.is_alive (c + 1)) (sym e) new
      | inr before ↦
          next-Fits s.n_steps s.is_alive c w.phase w.executed w.added (v.fits j w before)
            (counted_one c w (sum_full (counted c) s.threads j (counted-le c) (v.full one) before))
            (sum_zero (λ x. resets x.phase) ts j (omega (arith, er, rt, top0, resetting0)) h)
            (sum_zero (λ x. advances x.phase) ts j (omega (arith, ea, at1, top1, one, resetting0))
              h)
            inside
    ];
    in_range = omega (arith, inside);
    count = λ h. omega (arith, v.reset (omega (arith, one, resetting0)), fresh);
    reset = λ h. absurd (omega (arith, h, ea, at1, top1, one, resetting0));
    full = λ h. absurd (omega (arith, h, er, rt, top0, ea, at1, top1, one, resetting0));
    ended = λ h.
        absurd (omega (arith, h, fresh, length-set s.threads i u, get_elem?-lt s.threads i at));
    one = omega (arith, er, rt, top0, ea, at1, top1, one, resetting0);
  }
    where
      c : ℕ
      c = s.current_step_index

      er : sum (λ x. resets x.phase) ts + resets t.phase ≡ n_resetting s + resets u.phase
      er = sum-set (λ x. resets x.phase) s.threads i u at

      ea : sum (λ x. advances x.phase) ts + advances t.phase ≡ n_advancing s + advances u.phase
      ea = sum-set (λ x. advances x.phase) s.threads i u at

      top0 : resets u.phase ≡ 0
      top0 = ap resets top

      top1 : advances u.phase ≡ 0
      top1 = ap advances top

      some_one : 1 ≤ n_advancing s
      some_one = sum_pos (λ x. advances x.phase) s.threads i at1 at

      one : n_resetting s + n_advancing s ≡ 1
      one = omega (arith, v.one, some_one)

      resetting0 : n_resetting s ≡ 0
      resetting0 = omega (arith, one, some_one)

      new : FitsThread s.n_steps s.is_alive (c + 1) u
      new =
          subst (λ phase. Fits s.n_steps s.is_alive (c + 1) phase u.executed u.added) (sym top)
            (omega (arith, ex, ad, same), inl (omega (arith, ad, added)))

      all_added : (j : ℕ) (w : Thread) → get_elem? ts j ≡ some w → w.added ≡ c + 1
      all_added j w h = elim (get_elem?-set s.threads i j u h) [
        | inl e ↦ ap (λ x. x.added) e ∙ ad ∙ added
        | inr before ↦
            counted_one c w (sum_full (counted c) s.threads j (counted-le c) (v.full one) before)
      ]

      fresh : sum (counted (c + 1)) ts ≡ 0
      fresh =
          sum_all_zero (counted (c + 1)) ts
            λ j w h. counted_other (c + 1) w (λ e. omega (arith, e, all_added j w h))
