-- ===== src/Scheduler/Lifecycle.antt =====
-- One request through the scheduler, from its assignment to its release.
use prefill_opt.Prelude.{
  ℕ, ◌≡◌, ◌≢◌, inl, inr, refl, arith, ok, length, set, set-set, set-get_elem?, get_elem?-lt,
  get_elem?-set_self, u32_max, lt→ltb, add32, ◌<◌,
}
use prefill_opt.Scheduler.{
  Role, idle, prefill, decode, Scheduler, assign_prefill, transition_to_decode, release_group,
}
use prefill_opt.Scheduler.Search.{assign_prefill_lem}
use prefill_opt.Scheduler.Entries.{idle-free}
use prefill_opt.Scheduler.Invariant.{IsValid}

-- The scheduler with group `i` in a role and at a request.
abbrev at : Scheduler → ℕ → Role → ℕ → ℕ → Scheduler
at s i r id next = record s {
  group_roles = set s.group_roles i r;
  group_request_ids = set s.group_request_ids i id;
  next_request_id = next;
}

to_decode :
    (s : Scheduler) (i id next : ℕ)
    → i < s.n_sp_groups
    → i < length s.group_roles
    → transition_to_decode i (at s i prefill id next) ≡ ok (at s i decode id next)
unfolding transition_to_decode
to_decode s i id next h l =
    rw (lt→ltb i s.n_sp_groups h, get_elem?-set_self s.group_roles i prefill l)
      (rw (set-set s.group_roles i prefill decode) refl)

to_idle :
    (s : Scheduler) (i id next : ℕ)
    → i < s.n_sp_groups
    → release_group i (at s i decode id next) ≡ ok (at s i idle u32_max next)
unfolding release_group
to_idle s i id next h =
    rw (lt→ltb i s.n_sp_groups h)
      (rw (set-set s.group_roles i decode idle, set-set s.group_request_ids i id u32_max) refl)

-- A group that `assignPrefill` hands out can be taken to DECODE and then released, with no failed
-- assertion, and all groups are then as they were before the request.
pub lifecycle :
    (s : Scheduler)
    → IsValid s
    → (assign_prefill s).0 ≢ u32_max
    → (t u : Scheduler) × (transition_to_decode (assign_prefill s).0 (assign_prefill s).1 ≡ ok t)
      × (release_group (assign_prefill s).0 t ≡ ok u)
      × (u.group_roles ≡ s.group_roles)
      × (u.group_request_ids ≡ s.group_request_ids)
lifecycle s v ne = elim (assign_prefill_lem s (rw (v.sized) (v.few))) [
  | inl (_, e) ↦ absurd (ne (rw e refl))
  | inr (i, g, _, e) ↦
      let id : ℕ = s.next_request_id in
      let l : i < length s.group_roles = get_elem?-lt s.group_roles i g in
      let h : i < s.n_sp_groups = omega (arith, l, v.sized) in
      rw e (
        at s i decode id (add32 id 1),
        at s i idle u32_max (add32 id 1),
        to_decode s i id (add32 id 1) h l,
        to_idle s i id (add32 id 1) h,
        set-get_elem? s.group_roles i idle g,
        set-get_elem? s.group_request_ids i u32_max
            (idle-free s.next_request_id s.group_roles s.group_request_ids i v.entries g),
      )
]
