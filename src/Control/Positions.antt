-- ===== src/Control/Positions.antt =====
-- src/app.cpp, `setBatchPositions`: the packet still says where the root stands.
use prefill_opt.Prelude.{
  ℕ, ◌+◌, ◌<◌, ◌≤◌, ◌≡◌, refl, ap, sym, subst, ◌∙◌, ◌&&◌, ok, Option, none, some, List, [], ◌∷◌,
  length, get_elem?, get_or, set, leb, arith, dec_lt, length-set, get_elem?-set_self,
  get_elem?-set_ne, ==_iff, >>=-eq-ok, guard-eq-ok, ok-inj,
}
use prefill_opt.Control.{max_control_batch_pos}
use prefill_opt.Control.Root.{Root, set_batch_size, write_positions, set_batch_positions}
use prefill_opt.Control.Fill.{get_or-set_self, get_or-set_ne}
use prefill_opt.Control.Told.{Told, Sized, set_batch_size-resized, resized-Sized}

module _ {F : Type 0} (to_float : ℕ → F) where
  -- The entries before `i` are written.
  record Written (i : ℕ) (root : Root F) : Type 0 where
    capacity : root.n_batches ≤ length root.position_pipe
    slots : length root.packet.batch_positions ≡ max_control_batch_pos
    same_batch : root.execution_batch ≡ root.packet.batch_size
    in_bounds : root.execution_batch ≤ root.n_batches
    explicit : root.packet.position_mode ≡ 1
    few : root.execution_batch ≤ max_control_batch_pos
    written :
        (j : ℕ)
        → j < i
        → get_elem? root.position_pipe j ≡ some (to_float (get_or root.packet.batch_positions j 0))

  write_position : ℕ → ℕ → Root F → Root F
  write_position i p root = record root {
    packet = record (root.packet) { batch_positions = set root.packet.batch_positions i p };
    position_pipe = set root.position_pipe i (to_float p);
  }

  write_position-Written :
      (i p : ℕ) (root : Root F)
      → Written i root
      → i < root.execution_batch
      → Written (i + 1) (write_position i p root)
  unfolding write_position
  write_position-Written i p root w l = record {
    capacity = omega (arith, w.capacity, length-set root.position_pipe i (to_float p));
    slots = length-set root.packet.batch_positions i p ∙ w.slots;
    same_batch = w.same_batch;
    in_bounds = w.in_bounds;
    explicit = w.explicit;
    few = w.few;
    written = λ j m. elim (dec_lt j i) [
      | yes before ↦
          get_elem?-set_ne root.position_pipe (to_float p) (λ e. omega (arith, e, before))
          ∙ w.written j before
          ∙ ap (λ k. some (to_float k))
              (sym (get_or-set_ne root.packet.batch_positions p 0 (λ e. omega (arith, e, before))))
      | no here ↦
          subst
            (λ k.
              get_elem? (set root.position_pipe i (to_float p)) k
              ≡ some (to_float (get_or (set root.packet.batch_positions i p) k 0)))
            (omega (arith, here, m))
            (get_elem?-set_self root.position_pipe i (to_float p)
                (omega (arith, l, w.in_bounds, w.capacity))
              ∙ ap (λ k. some (to_float k))
                  (sym (
                    get_or-set_self root.packet.batch_positions i p 0
                      (omega (arith, l, w.few, w.slots)))))
    ];
  }

  write_positions-Written :
      (positions : List ℕ) (i : ℕ) (root last : Root F)
      → Written i root
      → i + length positions ≡ root.execution_batch
      → write_positions to_float i positions root ≡ ok last
      → Written last.execution_batch last
  unfolding write_positions write_position
  write_positions-Written [] i root last w e h =
      subst (λ r. Written r.execution_batch r) (ok-inj h)
        (subst (λ k. Written k root) (omega (arith, e)) w)
  write_positions-Written (p ∷ positions) i root last w e h =
      write_positions-Written positions (i + 1) (write_position i p root) last
        (write_position-Written i p root w (omega (arith, e))) (omega (arith, e))
        (guard-eq-ok _ _ _ h).1

  Written-Told : (root : Root F) → Written root.execution_batch root → Told to_float root
  Written-Told root w = record {
    capacity = w.capacity;
    slots = w.slots;
    same_batch = w.same_batch;
    in_bounds = w.in_bounds;
    explicit = λ e. w.few;
    placed = λ i l. rw ((==_iff root.packet.position_mode 1).1 w.explicit) (w.written i l);
  }

  -- The state before the first position is written.
  explicit_mode : ℕ → Root F → Root F
  explicit_mode p root = record root {
    packet = record (root.packet) { position_mode = 1; position = p };
  }

  explicit_mode-Written :
      (p : ℕ) (root : Root F)
      → Sized to_float root
      → root.execution_batch ≤ max_control_batch_pos
      → Written 0 (explicit_mode p root)
  unfolding explicit_mode
  explicit_mode-Written p root (capacity, slots, same, bounds) few = record {
    capacity = capacity;
    slots = slots;
    same_batch = same;
    in_bounds = bounds;
    explicit = refl;
    few = few;
    written = λ j l. absurd (omega (arith, l));
  }

  pub batch_positions-Told :
      (positions : Option (List ℕ)) (root last : Root F)
      → Sized to_float root
      → set_batch_positions to_float positions root ≡ ok last
      → Told to_float last
  unfolding set_batch_positions explicit_mode
  batch_positions-Told none root last t h = cc
  batch_positions-Told (some positions) root last t h =
      let n = length positions in
      let (inside, chain) = guard-eq-ok (leb 1 n && leb n max_control_batch_pos) _ _ h in
      let (sized, e, g) =
        >>=-eq-ok (set_batch_size to_float n root)
          (λ r. write_positions to_float 0 positions (explicit_mode (get_or positions 0 0) r))
          chain in
      let (fits, same) = set_batch_size-resized to_float n root sized e in
      let counted : n ≡ sized.execution_batch = ap (λ r. r.execution_batch) same in
      let few : n ≤ max_control_batch_pos = ground (arith, inside) in
      Written-Told last (
        write_positions-Written positions 0 (explicit_mode (get_or positions 0 0) sized) last
          (explicit_mode-Written (get_or positions 0 0) sized
            (subst (Sized to_float) same (resized-Sized to_float n root t fits))
            (subst (λ k. k ≤ max_control_batch_pos) counted few))
          (omega (arith, counted)) g)
