-- ===== src/Control/Bounds.antt =====
-- src/app.cpp: what no packet can do to a worker.
use prefill_opt.Prelude.{
  ℕ, ◌≤◌, ◌≡◌, inl, inr, refl, ap, subst, ◌∙◌, Bool, ◌||◌, not, Result, ok, guard, ◌>>=◌, ◌>>◌,
  Option, none, some, length, leb, leb→le, ◌==◌, arith, Bool-cases, >>=-eq-ok, guard-eq-ok, ok-inj,
}
use prefill_opt.Control.{
  Packet, ControlError, assertion, batch_exceeds_max, active_batch_zero, active_batch_exceeds_max,
  max_control_batch_pos,
}
use prefill_opt.Control.Root.{checked_batch_size}
use prefill_opt.Control.Worker.{
  Worker, active_span, change_phase, take_span, spanned, entry_position, try_read_control_packet,
}
use prefill_opt.Control.Fill.{length-fill}

pair-inj : {A B : Type 0} {a c : A} {b d : B} → ◌≡◌ {A = A × B} (a, b) (c, d) → b ≡ d
pair-inj e = ap (λ p. p.1) e

module _ {F : Type 0} (to_float : ℕ → F) where
  -- The bounds of a worker, and that a read leaves them.
  abbrev pub Safe : Worker F → Worker F → Type 0
  Safe w w' =
      (w'.worker_batch ≤ w'.max_batch_size)
      × (w'.max_batch_size ≡ w.max_batch_size)
      × (length w'.worker_pipe ≡ length w.worker_pipe)

  kept_pipe :
      (decode : Bool) (w : Worker F) → (change_phase decode w).max_batch_size ≡ w.max_batch_size
  unfolding change_phase
  kept_pipe decode w = ground arith

  take_span-Safe : (pos n : ℕ) (w w' : Worker F) → take_span to_float pos n w ≡ ok w' → Safe w w'
  unfolding take_span checked_batch_size spanned
  take_span-Safe pos n w w' h =
      let last : ℕ → Result ControlError (Worker F) = λ m. ok (spanned to_float pos m w) in
      let checked : Result ControlError (Worker F) =
        checked_batch_size w.max_batch_size n >>= last in
      let slots : Bool = not (w.worker_packet.position_mode == 1) || leb n max_control_batch_pos in
      let (some_rows, h1) =
        guard-eq-ok (not (n == 0)) active_batch_zero
          (guard (leb n w.max_batch_size) active_batch_exceeds_max
            >> (guard slots active_batch_exceeds_max >> checked))
          h in
      let (fits, h2) =
        guard-eq-ok (leb n w.max_batch_size) active_batch_exceeds_max
          (guard slots active_batch_exceeds_max >> checked) h1 in
      let (slot, h3) = guard-eq-ok slots active_batch_exceeds_max checked h2 in
      let (m, e, g) = >>=-eq-ok (checked_batch_size w.max_batch_size n) last h3 in
      let (again, same) = guard-eq-ok (leb n w.max_batch_size) assertion (ok n) e in
      let decode = w.worker_packet.phase == 1 in
      subst (Safe w) (ap (λ k. spanned to_float pos k w) (ok-inj same) ∙ ok-inj g) (
        rw (kept_pipe decode w) (leb→le n w.max_batch_size fits),
        kept_pipe decode w,
        length-fill (entry_position to_float w.worker_packet pos) 0 n w.worker_pipe,
      )

  -- Whatever a packet says, a worker that has read it without an error runs a batch of at most its bound,
  -- and its bound and the length of its pipe are as they were.
  pub worker_bounds :
      (packet : Option (Packet F)) (w w' : Worker F) {came : Bool}
      → w.worker_batch ≤ w.max_batch_size
      → try_read_control_packet to_float packet w ≡ ok (came, w')
      → Safe w w'
  unfolding try_read_control_packet
  worker_bounds none w w' h e = subst (λ last. Safe w last) (pair-inj (ok-inj e)) (h, refl, refl)
  worker_bounds (some packet) w w' h e = elim (Bool-cases (packet.batch_size == 0)) [
    | inl stop ↦ subst (λ last. Safe w last) (pair-inj (ok-inj (rw stop at e))) (h, refl, refl)
    | inr more ↦
        let (fits, e1) =
          guard-eq-ok (leb packet.batch_size w.max_batch_size) batch_exceeds_max _ (rw more at e) in
        let (span, e2, e3) = >>=-eq-ok (active_span w.node packet) _ e1 in
        let (done, e4, e5) =
          >>=-eq-ok (take_span to_float span.0 span.1 (record w { worker_packet = packet })) _ e3 in
        subst (λ last. Safe w last) (pair-inj (ok-inj e5))
          (take_span-Safe span.0 span.1 (record w { worker_packet = packet }) done e4)
  ]
