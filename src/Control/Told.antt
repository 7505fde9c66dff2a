-- ===== src/Control/Told.antt =====
-- src/app.cpp: the packet of the root always says where the root itself stands.
pub mod Calls
use prefill_opt.Prelude.{
  ℕ, ◌+◌, ◌<◌, ◌≤◌, ◌≡◌, refl, ap, sym, subst, ◌∙◌, Bool, true, false, ◌&&◌, Result, ok, guard,
  ◌>>=◌, ◌>>◌, Option, none, some, List, [], ◌∷◌, length, get_elem?, get_or, set, ltb, leb, ◌==◌,
  if◌then◌else◌, add32, arith, dec_lt, length-set, get_elem?-set_self, get_elem?-set_ne, ==_iff,
  >>=-eq-ok, guard-eq-ok, ok-inj, leb→le,
}
use prefill_opt.Control.{
  Packet, ControlError, assertion, max_control_batch_pos, max_sp_groups, SpGroup, fill,
}
use prefill_opt.Control.Root.{
  Root, checked_batch_size, set_decode_phase, set_last_prefill_chunk, set_batch_size, set_position,
  write_positions, set_batch_positions, set_token, for_root, set_sp_group_position,
  clear_sp_group_overrides,
}
use prefill_opt.Control.Fill.{length-fill, get_elem?-fill, get_or-set_self, get_or-set_ne}

-- The position that a packet gives to an entry of the batch.
abbrev pub told_position : {F : Type 0} → Packet F → ℕ → ℕ
told_position packet i =
    if packet.position_mode == 1 then get_or packet.batch_positions i 0 else add32 packet.position i

module _ {F : Type 0} (to_float : ℕ → F) where
  -- The root's own batch and positions are those of its packet.
  pub record Told (root : Root F) : Type 0 where
    pub capacity : root.n_batches ≤ length root.position_pipe
    pub slots : length root.packet.batch_positions ≡ max_control_batch_pos
    pub same_batch : root.execution_batch ≡ root.packet.batch_size
    pub in_bounds : root.execution_batch ≤ root.n_batches
    pub explicit : root.packet.position_mode ≡ 1 → root.execution_batch ≤ max_control_batch_pos
    pub placed :
        (i : ℕ)
        → i < root.execution_batch
        → get_elem? root.position_pipe i ≡ some (to_float (told_position root.packet i))

  -- The calls of the drivers. A batch size and its positions are calls of their own.
  pub data Command : Type 0 where
    decode_phase last_chunk : Bool → Command
    batch : ℕ → Command
    move : ℕ → Command
    explicit_positions : Option (List ℕ) → Command
    token : ℕ → ℕ → Command
    sp_group : ℕ → ℕ → ℕ → Command
    clear_groups : Command

  unfoldable pub apply : Command → Root F → Result ControlError (Root F)
  apply (decode_phase is_decode) root = ok (set_decode_phase to_float is_decode root)
  apply (last_chunk is_last) root = ok (set_last_prefill_chunk to_float is_last root)
  apply (batch batch_size) root = set_batch_size to_float batch_size root
  apply (move position) root = set_position to_float position root
  apply (explicit_positions positions) root = set_batch_positions to_float positions root
  apply (token i t) root = set_token to_float i t root
  apply (sp_group g position batch_size) root =
      set_sp_group_position to_float g position batch_size root
  apply clear_groups root = ok (clear_sp_group_overrides to_float root)

  -- The positions from `p` on, written to the packet and to the pipe.
  abbrev pub from_position : ℕ → Root F → Root F
  from_position p root = record root {
    packet = record (root.packet) { position = p; position_mode = 0 };
    position_pipe = fill (λ i. to_float (add32 p i)) 0 root.execution_batch root.position_pipe;
  }

  abbrev pub Sized : Root F → Type 0
  Sized root =
      (root.n_batches ≤ length root.position_pipe)
      × (length root.packet.batch_positions ≡ max_control_batch_pos)
      × (root.execution_batch ≡ root.packet.batch_size)
      × (root.execution_batch ≤ root.n_batches)

  pub Told-Sized : (root : Root F) → Told root → Sized root
  Told-Sized root t = (t.capacity, t.slots, t.same_batch, t.in_bounds)

  from_position-Told : (p : ℕ) (root : Root F) → Sized root → Told (from_position p root)
  from_position-Told p root (capacity, slots, same, bounds) = record {
    capacity = omega (arith, capacity, length-fill value 0 root.execution_batch root.position_pipe);
    slots = slots;
    same_batch = same;
    in_bounds = bounds;
    explicit = λ e. absurd (omega (arith, e));
    placed = λ i l.
        get_elem?-fill value 0 root.execution_batch root.position_pipe i (omega arith)
          (omega (arith, l)) (omega (arith, l, bounds, capacity));
  }
    where
      value : ℕ → F
      value i = to_float (add32 p i)

  pub set_position-Told :
      (p : ℕ) (root last : Root F) → Sized root → set_position to_float p root ≡ ok last → Told last
  unfolding set_position
  set_position-Told p root last sized h =
      subst Told (ok-inj (guard-eq-ok _ _ _ h).1) (from_position-Told p root sized)

  -- The state with a new batch size, whose positions are still to come.
  abbrev resized : ℕ → Root F → Root F
  resized n root = record root {
    packet = record (root.packet) { is_last_prefill_chunk = 1; batch_size = n };
    execution_batch = n;
  }

  pub set_batch_size-resized :
      (n : ℕ) (root sized : Root F)
      → set_batch_size to_float n root ≡ ok sized
      → (n ≤ root.n_batches) × (resized n root ≡ sized)
  unfolding set_batch_size checked_batch_size
  set_batch_size-resized n root sized h =
      let (checked, e, g) =
        >>=-eq-ok (guard (leb n root.n_batches) assertion >> ok n) (λ m. ok (resized m root)) h in
      let (fits, same) = guard-eq-ok (leb n root.n_batches) assertion (ok n) e in
      (leb→le n root.n_batches fits, ap (λ m. resized m root) (ok-inj same) ∙ ok-inj g)

  pub resized-Sized :
      (n : ℕ) (root : Root F) → Sized root → n ≤ root.n_batches → Sized (resized n root)
  resized-Sized n root (capacity, slots, same, bounds) fits = (capacity, slots, refl, fits)

  pub set_batch_size-Sized :
      (n : ℕ) (root last : Root F)
      → Sized root
      → set_batch_size to_float n root ≡ ok last
      → Sized last
  set_batch_size-Sized n root last sized h =
      let (fits, same) = set_batch_size-resized n root last h in
      subst Sized same (resized-Sized n root sized fits)

  pub for_root-Told :
      (n p : ℕ) (root last : Root F) → Sized root → for_root to_float p n root ≡ ok last → Told last
  unfolding for_root checked_batch_size
  for_root-Told n p root last (capacity, slots, same_sizes, bounds) h =
      let (checked, e, g) =
        >>=-eq-ok (guard (leb n root.n_batches) assertion >> ok n)
          (λ m. ok (from_position p (rebatched m))) h in
      let (fits, same) = guard-eq-ok (leb n root.n_batches) assertion (ok n) e in
      subst Told (ap (λ m. from_position p (rebatched m)) (ok-inj same) ∙ ok-inj g)
        (from_position-Told p (rebatched n) (capacity, slots, refl, leb→le n root.n_batches fits))
    where
      rebatched : ℕ → Root F
      rebatched m = record root {
        packet = record (root.packet) { batch_size = m };
        execution_batch = m;
      }
