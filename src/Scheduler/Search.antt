-- ===== src/Scheduler/Search.antt =====
-- What the finders of the scheduler return.
use prefill_opt.Prelude.{
  ℕ, zero, suc, ◌+◌, ◌<◌, ◌≡◌, ◌≢◌, ◌⊎◌, inl, inr, refl, ap, arith, List, [], ◌∷◌, some, length,
  get_elem?, set, u32_max, ◌==◌, Bool-cases, true, false, add32,
}
use prefill_opt.Scheduler.{
  Role, idle, prefill, decode, role_eq, Scheduler, find_role, assign_prefill,
}

pub role_eq_refl : (r : Role) → role_eq r r ≡ true
role_eq_refl idle = refl
role_eq_refl prefill = refl
role_eq_refl decode = refl

pub role_eq→eq : (r q : Role) → role_eq r q ≡ true → r ≡ q
role_eq→eq r q h = ground arith

-- No group of the first `k` has the role.
abbrev pub NoneBelow : Role → List Role → ℕ → Type 0
NoneBelow role rs k = (j : ℕ) → j < k → get_elem? rs j ≢ some role

other-head :
    (role r : Role) (rs : List Role) (k : ℕ)
    → role_eq r role ≡ false
    → NoneBelow role rs k
    → NoneBelow role (r ∷ rs) (suc k)
other-head role r rs k ne h zero l e = ground (arith, role_eq_refl role)
other-head role r rs k ne h (suc j) l e = h j (omega arith) e

-- What a search over `rs` from index `i` ends with.
abbrev Ends : Role → List Role → ℕ → Type 0
Ends role rs i =
    ((find_role role rs i ≡ u32_max) × NoneBelow role rs (length rs))
    ⊎ ((k : ℕ) × (find_role role rs i ≡ i + k)
        × (k < length rs)
        × (get_elem? rs k ≡ some role)
        × NoneBelow role rs k)

find_role_from : (role : Role) (rs : List Role) (i : ℕ) → Ends role rs i
unfolding find_role
find_role_from role [] i = inl (refl, λ j l. absurd (omega arith))
find_role_from role (r ∷ rs) i = elim (Bool-cases (role_eq r role)) [
  | inl t ↦ inr (
    0,
    rw t (omega arith),
    omega arith,
    ap some (role_eq→eq r role t),
    λ j l. absurd (omega arith),
  )
  | inr t ↦ elim (find_role_from role rs (i + 1)) [
    | inl (e, h) ↦ inl (rw t e, other-head role r rs (length rs) t h)
    | inr (k, e, l, g, h) ↦
        inr (suc k, rw t (omega (arith, e)), omega (arith, l), g, other-head role r rs k t h)
  ]
]

-- The search ends at the first group of the role, or at `UINT32_MAX` when there is none.
abbrev pub Finds : Role → List Role → ℕ → Type 0
Finds role rs k =
    ((k ≡ u32_max) × NoneBelow role rs (length rs))
    ⊎ ((k < length rs) × (get_elem? rs k ≡ some role) × NoneBelow role rs k)

pub find_role-Finds : (role : Role) (rs : List Role) → Finds role rs (find_role role rs 0)
find_role-Finds role rs = elim (find_role_from role rs 0) [
  | inl w ↦ inl w
  | inr (k, e, l, g, h) ↦
      let e' : find_role role rs 0 ≡ k = omega (arith, e) in rw e' (inr (l, g, h))
]

-- `assignPrefill`, with fewer groups than `UINT32_MAX`: without an idle group it returns `UINT32_MAX`
-- and changes nothing, whatever other groups do; otherwise it returns the first idle group, gives
-- it the role PREFILL and the next request, and counts that request.
pub assign_prefill_lem :
    (s : Scheduler)
    → length s.group_roles < u32_max
    → (NoneBelow idle s.group_roles (length s.group_roles) × (assign_prefill s ≡ (u32_max, s)))
      ⊎ ((i : ℕ) × (get_elem? s.group_roles i ≡ some idle)
          × NoneBelow idle s.group_roles i
          × (assign_prefill s ≡ (
            i,
            record s {
              group_roles = set s.group_roles i prefill;
              group_request_ids = set s.group_request_ids i s.next_request_id;
              next_request_id = add32 s.next_request_id 1;
            },
          )))
unfolding assign_prefill
assign_prefill_lem s few = elim (find_role-Finds idle s.group_roles) [
  | inl (e, h) ↦ inl (h, rw e)
  | inr (l, g, h) ↦
      let i : ℕ = find_role idle s.group_roles 0 in
      let t : (i == u32_max) ≡ false = ground (arith, l, few) in inr (i, g, h, rw t)
]
