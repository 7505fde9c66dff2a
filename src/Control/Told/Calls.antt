-- ===== src/Control/Told/Calls.antt =====
-- src/app.cpp: every call of the root keeps its packet true.
use prefill_opt.Prelude.{
  ℕ, ◌≡◌, subst, Bool, true, false, Result, ok, ◌>>=◌, List, [], ◌∷◌, set, ltb, ◌==◌, ◌||◌,
  if◌then◌else◌, >>=-eq-ok, guard-eq-ok, ok-inj,
}
use prefill_opt.Control.{ControlError, assertion, max_sp_groups, SpGroup}
use prefill_opt.Control.Root.{
  Root, set_decode_phase, set_last_prefill_chunk, set_token, for_root, set_sp_group_position,
  clear_sp_group_overrides,
}
use prefill_opt.Control.Told.{
  Told, Sized, Command, apply, set_batch_size-Sized, for_root-Told, set_position-Told, Told-Sized,
  decode_phase, last_chunk, batch, move, explicit_positions, token, sp_group, clear_groups,
}
use prefill_opt.Control.Positions.{batch_positions-Told}

module _ {F : Type 0} (to_float : ℕ → F) where
  -- What the other calls change.
  marked : ℕ → ℕ → List SpGroup → List F → Root F → Root F
  marked phase is_last groups tokens root = record root {
    packet = record (root.packet) {
      phase = phase;
      is_last_prefill_chunk = is_last;
      sp_groups = groups;
    };
    token_pipe = tokens;
  }

  marked-Told :
      (phase is_last : ℕ) (groups : List SpGroup) (tokens : List F) (root : Root F)
      → Told to_float root
      → Told to_float (marked phase is_last groups tokens root)
  unfolding marked
  marked-Told phase is_last groups tokens root t = record {
    capacity = t.capacity;
    slots = t.slots;
    same_batch = t.same_batch;
    in_bounds = t.in_bounds;
    explicit = t.explicit;
    placed = t.placed;
  }

  -- What is known of the root: its positions are told too, if they are `placed`.
  abbrev pub Standing : Bool → Root F → Type 0
  Standing true root = Told to_float root
  Standing false root = Sized to_float root

  Standing-Sized : (placed : Bool) (root : Root F) → Standing placed root → Sized to_float root
  Standing-Sized true root t = Told-Sized to_float root t
  Standing-Sized false root sized = sized

  marked-Standing :
      (placed : Bool) (phase is_last : ℕ) (groups : List SpGroup) (tokens : List F) (root : Root F)
      → Standing placed root
      → Standing placed (marked phase is_last groups tokens root)
  unfolding marked
  marked-Standing true phase is_last groups tokens root t =
      marked-Told phase is_last groups tokens root t
  marked-Standing false phase is_last groups tokens root sized = sized

  -- Whether the positions are those of the batch after a call: not after a new batch size.
  abbrev pub follow : Bool → Command to_float → Bool
  follow placed (batch n) = false
  follow placed (move p) = true
  follow placed (explicit_positions positions) = true
  follow placed (sp_group g p n) = (g == 0) || placed
  follow placed (decode_phase is_decode) = placed
  follow placed (last_chunk is_last) = placed
  follow placed (token i n) = placed
  follow placed clear_groups = placed

  sp_group-Standing :
      (placed : Bool) (g p n : ℕ) (root last : Root F)
      → Standing placed root
      → set_sp_group_position to_float g p n root ≡ ok last
      → Standing ((g == 0) || placed) last
  unfolding set_sp_group_position marked
  sp_group-Standing placed g p n root last t h =
      branch (g == 0) (guard-eq-ok (ltb g max_sp_groups) assertion _ h).1
    where
      told : Root F
      told =
          marked root.packet.phase root.packet.is_last_prefill_chunk
            (set root.packet.sp_groups g (record { group_position = p; group_batch_size = n }))
            root.token_pipe root

      told-Standing : Standing placed told
      told-Standing = marked-Standing placed _ _ _ _ root t

      branch :
          (own : Bool)
          → (if own then for_root to_float p n told else ok told) ≡ ok last
          → Standing (own || placed) last
      branch true e =
          for_root-Told to_float n p told last (Standing-Sized placed told told-Standing) e
      branch false e = subst (Standing placed) (ok-inj e) told-Standing

  -- Every call of the root keeps its own batch size that of its packet, and its positions too, once
  -- they follow the batch size.
  pub apply-Standing :
      (placed : Bool) (c : Command to_float) (root last : Root F)
      → Standing placed root
      → apply to_float c root ≡ ok last
      → Standing (follow placed c) last
  unfolding apply set_decode_phase set_last_prefill_chunk set_token clear_sp_group_overrides marked
  apply-Standing placed (decode_phase is_decode) root last t h =
      subst (Standing placed) (ok-inj h)
        (marked-Standing placed _ _ root.packet.sp_groups root.token_pipe root t)
  apply-Standing placed (last_chunk is_last) root last t h =
      subst (Standing placed) (ok-inj h)
        (marked-Standing placed root.packet.phase _ root.packet.sp_groups root.token_pipe root t)
  apply-Standing placed (batch n) root last t h =
      set_batch_size-Sized to_float n root last (Standing-Sized placed root t) h
  apply-Standing placed (move p) root last t h =
      set_position-Told to_float p root last (Standing-Sized placed root t) h
  apply-Standing placed (explicit_positions positions) root last t h =
      batch_positions-Told to_float positions root last (Standing-Sized placed root t) h
  apply-Standing placed (token i n) root last t h =
      subst (Standing placed) (ok-inj (guard-eq-ok (ltb i root.execution_batch) assertion _ h).1) (
        marked-Standing placed root.packet.phase root.packet.is_last_prefill_chunk
          root.packet.sp_groups _ root t)
  apply-Standing placed (sp_group g p n) root last t h =
      sp_group-Standing placed g p n root last t h
  apply-Standing placed clear_groups root last t h = subst (Standing placed) (ok-inj h) (
      marked-Standing placed root.packet.phase root.packet.is_last_prefill_chunk _ root.token_pipe
        root t)

  unfoldable pub run_commands : List (Command to_float) → Root F → Result ControlError (Root F)
  run_commands [] root = ok root
  run_commands (c ∷ commands) root = apply to_float c root >>= run_commands commands

  -- Whether positions were set behind the last new batch size.
  abbrev pub follow_all : Bool → List (Command to_float) → Bool
  follow_all placed [] = placed
  follow_all placed (c ∷ commands) = follow_all (follow placed c) commands

  pub run_commands-Standing :
      (placed : Bool) (commands : List (Command to_float)) (root last : Root F)
      → Standing placed root
      → run_commands commands root ≡ ok last
      → Standing (follow_all placed commands) last
  unfolding run_commands
  run_commands-Standing placed [] root last t h = subst (Standing placed) (ok-inj h) t
  run_commands-Standing placed (c ∷ commands) root last t h =
      let (next, e, g) = >>=-eq-ok (apply to_float c root) (run_commands commands) h in
      run_commands-Standing (follow placed c) commands next last
        (apply-Standing placed c root next t e) g
