-- ===== src/Scheduler/Invariant.antt =====
-- The scheduler's bookkeeping, over any sequence of calls.
use prefill_opt.Prelude.{
  ℕ, ◌+◌, ◌≤◌, ◌<◌, ◌≡◌, inl, inr, refl, arith, List, [], ◌∷◌, ok, length, get_elem?, set,
  length-set, length-replicate, u32_max, add32, add32-eq, >>=-eq-ok, true, ◌∙◌,
}
use prefill_opt.Scheduler.{
  idle, prefill, decode, Scheduler, Call, assigns, transitions, releases, create, assign_prefill,
  transition_to_decode, release_group, is_prefill, step, run,
}
use prefill_opt.Scheduler.Search.{assign_prefill_lem}
use prefill_opt.Scheduler.Entries.{
  Entries, Distinct, Entries-set, Entries-decode, Entries-start, next-NotIn, Distinct-set,
  Distinct-start,
}

pub record IsValid (s : Scheduler) : Type 0 where
  pub sized : length s.group_roles ≡ s.n_sp_groups
  pub few : s.n_sp_groups < u32_max
  pub entries : Entries s.next_request_id s.group_roles s.group_request_ids
  pub distinct : Distinct s.group_request_ids
  pub counted : s.next_request_id ≤ u32_max

pub create-IsValid : (n : ℕ) → n < u32_max → IsValid (create n)
unfolding create
create-IsValid n h = record {
  sized = length-replicate n idle;
  few = h;
  entries = Entries-start n;
  distinct = Distinct-start n;
  counted = omega arith;
}

assign-IsValid :
    (s : Scheduler) → s.next_request_id < u32_max → IsValid s → IsValid (assign_prefill s).1
assign-IsValid s room v = elim (assign_prefill_lem s (rw (v.sized) (v.few))) [
  | inl (_, e) ↦ rw e v
  | inr (i, _, _, e) ↦
      let n : add32 s.next_request_id 1 ≡ s.next_request_id + 1 =
        add32-eq _ 1 (omega (arith, room)) in
      rw e (record {
        sized = length-set s.group_roles i prefill ∙ v.sized;
        few = v.few;
        entries = rw n (
            Entries-set s.next_request_id (s.next_request_id + 1) s.group_roles s.group_request_ids
              i prefill s.next_request_id (omega arith) (inr ((cc), omega arith)) v.entries);
        distinct =
            Distinct-set s.next_request_id s.group_request_ids i
              (inr (next-NotIn s.next_request_id s.group_roles s.group_request_ids room v.entries))
              v.distinct;
        counted = rw n (omega (arith, room));
      })
]

transition-IsValid :
    (s : Scheduler) (i : ℕ) {t : Scheduler}
    → IsValid s
    → transition_to_decode i s ≡ ok t
    → IsValid t
unfolding transition_to_decode
transition-IsValid s i {t} v h =
    let p : is_prefill (get_elem? s.group_roles i) ≡ true = ground (arith, h) in
    let e : t ≡ record s { group_roles = set s.group_roles i decode } = ground (arith, h) in
    rw e (record {
      sized = length-set s.group_roles i decode ∙ v.sized;
      few = v.few;
      entries = Entries-decode s.next_request_id s.group_roles s.group_request_ids i p v.entries;
      distinct = v.distinct;
      counted = v.counted;
    })

release-IsValid :
    (s : Scheduler) (i : ℕ) {t : Scheduler} → IsValid s → release_group i s ≡ ok t → IsValid t
unfolding release_group
release-IsValid s i {t} v h =
    let e : t ≡ record s {
      group_roles = set s.group_roles i idle;
      group_request_ids = set s.group_request_ids i u32_max;
    } =
      ground (arith, h) in
    rw e (record {
      sized = length-set s.group_roles i idle ∙ v.sized;
      few = v.few;
      entries =
          Entries-set s.next_request_id s.next_request_id s.group_roles s.group_request_ids i idle
            u32_max (omega arith) (inl (refl, refl)) v.entries;
      distinct = Distinct-set u32_max s.group_request_ids i (inl refl) v.distinct;
      counted = v.counted;
    })

next_assigned :
    (s : Scheduler)
    → s.next_request_id < u32_max
    → IsValid s
    → (assign_prefill s).1.next_request_id ≤ s.next_request_id + 1
next_assigned s room v = elim (assign_prefill_lem s (rw (v.sized) (v.few))) [
  | inl (_, e) ↦ rw e (omega arith)
  | inr (i, _, _, e) ↦ rw (e, add32-eq s.next_request_id 1 (omega (arith, room))) (omega arith)
]

next_kept :
    (i : ℕ) (s : Scheduler) {t : Scheduler}
    → transition_to_decode i s ≡ ok t
    → t.next_request_id ≤ s.next_request_id + 1
unfolding transition_to_decode
next_kept i s h = ground arith

next_released :
    (i : ℕ) (s : Scheduler) {t : Scheduler}
    → release_group i s ≡ ok t
    → t.next_request_id ≤ s.next_request_id + 1
unfolding release_group
next_released i s h = ground arith

step-IsValid :
    (c : Call) (s : Scheduler) {t : Scheduler}
    → s.next_request_id < u32_max
    → IsValid s
    → step c s ≡ ok t
    → IsValid t × (t.next_request_id ≤ s.next_request_id + 1)
unfolding step
step-IsValid assigns s {t} room v h =
    let e : t ≡ (assign_prefill s).1 = cc in rw e (assign-IsValid s room v, next_assigned s room v)
step-IsValid (transitions i) s room v h = (transition-IsValid s i v h, next_kept i s h)
step-IsValid (releases i) s room v h = (release-IsValid s i v h, next_released i s h)

run_from :
    (cs : List Call) (s : Scheduler) {t : Scheduler}
    → s.next_request_id + length cs < u32_max
    → IsValid s
    → run cs s ≡ ok t
    → IsValid t
unfolding run
run_from [] s {t} room v h = let e : t ≡ s = cc in rw e v
run_from (c ∷ cs) s room v h =
    let (s', e, k) = >>=-eq-ok (step c s) (run cs) h in
    let w = step-IsValid c s (omega (arith, room)) v e in
    run_from cs s' (omega (arith, room, w.1)) w.0 k

start :
    (n : ℕ) (cs : List Call)
    → length cs < u32_max
    → (create n).next_request_id + length cs < u32_max
unfolding create
start n cs h = omega (arith, h)

-- Any sequence of calls on a scheduler made for `n < UINT32_MAX` groups, if no assertion fails
-- and there are fewer calls than `UINT32_MAX`, keeps it valid: a group is idle exactly when it holds
-- no request, and no request is in two groups.
pub run-IsValid :
    (n : ℕ)
    → n < u32_max
    → (cs : List Call) → length cs < u32_max
    → {t : Scheduler} → run cs (create n) ≡ ok t
    → IsValid t
run-IsValid n few cs room h = run_from cs (create n) (start n cs room) (create-IsValid n few) h
