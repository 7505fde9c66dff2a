-- ===== src/Scheduler/Tests.antt =====
-- Runs of the scheduler, and the theorems on two groups.
use prefill_opt.Prelude.{
  ℕ, ◌≡◌, ◌⊎◌, refl, arith, ok, err, [], ◌∷◌, some, get_elem?, set, u32_max, add32, ◌>>=◌,
}
use prefill_opt.Scheduler.{
  Scheduler, idle, prefill, decode, create, find_role, assign_prefill, transition_to_decode,
  release_group, step, run, assigns, transitions, not_in_prefill, find_decode_group,
}
use prefill_opt.Scheduler.Search.{NoneBelow, assign_prefill_lem}
use prefill_opt.Scheduler.Invariant.{IsValid, create-IsValid, run-IsValid}
use prefill_opt.Scheduler.Lifecycle.{lifecycle}

-- What a run computes with.
program : Unit {0}
unfolding create find_role assign_prefill transition_to_decode release_group step run
    find_decode_group add32
program = tt

two_requests :
    (run (assigns ∷ assigns ∷ transitions 0 ∷ []) (create 2) >>= λ s. ok (find_decode_group s))
    ≡ ok 0
unfolding program
two_requests = refl

not_yet : run (transitions 1 ∷ []) (create 2) ≡ err not_in_prefill
unfolding program
not_yet = refl

abbrev decoding : Scheduler
decoding = record {
  n_sp_groups = 2;
  group_roles = decode ∷ prefill ∷ [];
  group_request_ids = 0 ∷ 1 ∷ [];
  next_request_id = 2;
}

-- No idle group is left, and the one in DECODE is not taken.
assign_prefill_lem_example :
    (NoneBelow idle (decode ∷ prefill ∷ []) 2 × (assign_prefill decoding ≡ (u32_max, decoding)))
    ⊎ ((i : ℕ) × (get_elem? (decode ∷ prefill ∷ []) i ≡ some idle)
        × NoneBelow idle (decode ∷ prefill ∷ []) i
        × (assign_prefill decoding ≡ (
          i,
          record {
            n_sp_groups = 2;
            group_roles = set (decode ∷ prefill ∷ []) i prefill;
            group_request_ids = set (0 ∷ 1 ∷ []) i 2;
            next_request_id = add32 2 1;
          },
        )))
assign_prefill_lem_example = assign_prefill_lem decoding (omega arith)

run-IsValid_example : IsValid decoding
unfolding program
run-IsValid_example =
    run-IsValid 2 (omega arith) (assigns ∷ assigns ∷ transitions 0 ∷ []) (omega arith) refl

lifecycle_example :
    (t u : Scheduler) × (transition_to_decode
        (assign_prefill (create 2)).0
        (assign_prefill (create 2)).1
      ≡ ok t)
    × (release_group (assign_prefill (create 2)).0 t ≡ ok u)
    × (u.group_roles ≡ idle ∷ idle ∷ [])
    × (u.group_request_ids ≡ u32_max ∷ u32_max ∷ [])
unfolding program
lifecycle_example = lifecycle (create 2) (create-IsValid 2 (omega arith)) (omega arith)
