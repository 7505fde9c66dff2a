-- ===== src/Executor/Invariant.antt =====
-- src/nn/nn-executor.cpp: what holds of the threads and the counters between any two actions.
use prefill_opt.Prelude.{
  ℕ, ◌+◌, ◌<◌, ◌≤◌, ◌≡◌, ◌≢◌, ◌⊎◌, inl, inr, refl, Bool, false, some, length, get_elem?, ◌==◌,
  if◌then◌else◌, arith,
}
use prefill_opt.Executor.{
  Phase, Thread, Run, at_top, loading, leaving, closing, stopped, running, ran, resetting,
  advancing, waiting,
}
use prefill_opt.Executor.Sums.{sum}

-- What a thread's place says of its counters, for `n` steps and the current step `c`.
unfoldable pub Fits : ℕ → Bool → ℕ → Phase → ℕ → ℕ → Type 0
Fits n alive c at_top ex ad = (ex ≡ ad) × ((ad ≡ c) ⊎ ((alive ≡ false) × (ad ≡ c + 1)))
Fits n alive c loading ex ad = (ex ≡ ad) × (ad ≡ c)
Fits n alive c (running k) ex ad = (ex ≡ ad) × (ad ≡ c) × (k ≡ c) × (c < n)
Fits n alive c (ran k) ex ad = (ex ≡ ad + 1) × (ad ≡ c) × (k ≡ c) × (c < n)
Fits n alive c (resetting k) ex ad = (ex ≡ ad) × (ad ≡ c + 1) × (k ≡ c) × (c < n)
Fits n alive c (advancing k) ex ad = (ex ≡ ad) × (ad ≡ c + 1) × (k ≡ c) × (c < n)
Fits n alive c (waiting k) ex ad = (ex ≡ ad) × (ad ≡ k + 1) × ((k ≡ c) ⊎ (ad ≡ c)) × (k < n)
Fits n alive c leaving ex ad =
    (ex ≡ ad) × ((ad ≡ c) ⊎ (ad ≡ c + 1)) × ((alive ≡ false) ⊎ ((c ≡ n) × (ad ≡ n)))
Fits n alive c closing ex ad =
    (ex ≡ ad) × ((ad ≡ c) ⊎ (ad ≡ c + 1)) × ((alive ≡ false) ⊎ ((c ≡ n) × (ad ≡ n)))
Fits n alive c stopped ex ad =
    (ex ≡ ad) × ((ad ≡ c) ⊎ (ad ≡ c + 1)) × ((alive ≡ false) ⊎ ((c ≡ n) × (ad ≡ n)))

unfoldable pub FitsThread : ℕ → Bool → ℕ → Thread → Type 0
FitsThread n alive c t = Fits n alive c t.phase t.executed t.added

-- Whether a thread has added itself for step `c`, and whether it is the one that ends the step.
unfoldable pub counted : ℕ → Thread → ℕ
counted c t = if t.added == c + 1 then 1 else 0

unfoldable pub resets : Phase → ℕ
resets (resetting k) = 1
resets _ = 0

unfoldable pub advances : Phase → ℕ
advances (advancing k) = 1
advances _ = 0

abbrev pub n_counted : Run → ℕ
n_counted s = sum (counted s.current_step_index) s.threads

abbrev pub n_resetting : Run → ℕ
n_resetting s = sum (λ t. resets t.phase) s.threads

abbrev pub n_advancing : Run → ℕ
n_advancing s = sum (λ t. advances t.phase) s.threads

-- The step is being ended by exactly one thread just when all have added themselves, and until it resets
-- it the count is the number of threads that have.
pub record IsSound (s : Run) : Type 0 where
  pub fits :
      (i : ℕ) (t : Thread)
      → get_elem? s.threads i ≡ some t
      → FitsThread s.n_steps s.is_alive s.current_step_index t
  pub in_range : s.current_step_index ≤ s.n_steps
  pub count : n_advancing s ≡ 0 → s.done_thread_count ≡ n_counted s
  pub reset : n_advancing s ≡ 1 → s.done_thread_count ≡ 0
  pub full : n_resetting s + n_advancing s ≡ 1 → n_counted s ≡ length s.threads
  pub ended : n_counted s ≡ length s.threads → n_resetting s + n_advancing s ≡ 1
  pub one : n_resetting s + n_advancing s ≤ 1

-- What no part of the invariant reads.
pub unread :
    (s : Run) (done_run : ℕ) (run_done : Bool)
    → IsSound s
    → IsSound (record s { done_run_thread_count = done_run; is_run_done = run_done })
unread s done_run run_done v = record {
  fits = v.fits;
  in_range = v.in_range;
  count = v.count;
  reset = v.reset;
  full = v.full;
  ended = v.ended;
  one = v.one;
}

pub dead-Fits :
    (n : ℕ) (alive : Bool) (c : ℕ) (phase : Phase) (ex ad : ℕ)
    → Fits n alive c phase ex ad
    → Fits n false c phase ex ad
unfolding Fits
dead-Fits n alive c at_top ex ad h = ground arith
dead-Fits n alive c loading ex ad h = h
dead-Fits n alive c (running k) ex ad h = h
dead-Fits n alive c (ran k) ex ad h = h
dead-Fits n alive c (resetting k) ex ad h = h
dead-Fits n alive c (advancing k) ex ad h = h
dead-Fits n alive c (waiting k) ex ad h = h
dead-Fits n alive c leaving ex ad (e, a, b) = (e, a, inl refl)
dead-Fits n alive c closing ex ad (e, a, b) = (e, a, inl refl)
dead-Fits n alive c stopped ex ad (e, a, b) = (e, a, inl refl)

pub dead : (s : Run) → IsSound s → IsSound (record s { is_alive = false })
unfolding FitsThread
dead s v = record {
  fits = λ i t h.
      dead-Fits s.n_steps s.is_alive s.current_step_index t.phase t.executed t.added (v.fits i t h);
  in_range = v.in_range;
  count = v.count;
  reset = v.reset;
  full = v.full;
  ended = v.ended;
  one = v.one;
}

-- The next step begins for a thread that has added itself and is not the one that ends the step.
pub next-Fits :
    (n : ℕ) (alive : Bool) (c : ℕ) (phase : Phase) (ex ad : ℕ)
    → Fits n alive c phase ex ad
    → ad ≡ c + 1
    → resets phase ≡ 0
    → advances phase ≡ 0
    → c < n
    → Fits n alive (c + 1) phase ex ad
unfolding Fits resets advances
next-Fits n alive c at_top ex ad (e, h) a r b l = (e, inl a)
next-Fits n alive c loading ex ad (e, h) a r b l = absurd (omega (arith, h, a))
next-Fits n alive c (running k) ex ad (e, h, g, m) a r b l = absurd (omega (arith, h, a))
next-Fits n alive c (ran k) ex ad (e, h, g, m) a r b l = absurd (omega (arith, h, a))
next-Fits n alive c (resetting k) ex ad h a r b l = absurd (omega (arith, r))
next-Fits n alive c (advancing k) ex ad h a r b l = absurd (omega (arith, b))
next-Fits n alive c (waiting k) ex ad (e, h, g, m) a r b l = (e, h, inr a, m)
next-Fits n alive c leaving ex ad (e, h, g) a r b l = (e, inl a, ground (arith, g, l))
next-Fits n alive c closing ex ad (e, h, g) a r b l = (e, inl a, ground (arith, g, l))
next-Fits n alive c stopped ex ad (e, h, g) a r b l = (e, inl a, ground (arith, g, l))

pub counted-le : (c : ℕ) (t : Thread) → counted c t ≤ 1
unfolding counted
counted-le c t = ground arith

pub counted_one : (c : ℕ) (t : Thread) → counted c t ≡ 1 → t.added ≡ c + 1
unfolding counted
counted_one c t h = ground arith

pub counted_added : (c : ℕ) (t : Thread) → t.added ≡ c + 1 → counted c t ≡ 1
unfolding counted
counted_added c t h = ground arith

pub counted_other : (c : ℕ) (t : Thread) → t.added ≢ c + 1 → counted c t ≡ 0
unfolding counted
counted_other c t h = ground arith
