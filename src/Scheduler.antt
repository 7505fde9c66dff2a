-- ===== src/Scheduler.antt =====
-- `SpGroupScheduler` of src/app.hpp and src/app.cpp: the roles of the SP groups. The two vectors are
-- lists; `UINT32_MAX` stands for no group and for no request.
pub mod Entries
pub mod Invariant
pub mod Lifecycle
pub mod Search
mod Tests
use prefill_opt.Prelude.{
  ℕ, zero, suc, ◌+◌, Bool, true, false, not, List, [], ◌∷◌, Option, none, some, Result, ok, err,
  guard, ◌>>=◌, ◌>>◌, if◌then◌else◌, ltb, ◌==◌, add32, u32_max, length, get_elem?, set, replicate,
}

-- `SpGroupRole`
pub data Role : Type 0 where
  idle prefill decode : Role

abbrev pub role_eq : Role → Role → Bool
role_eq idle idle = true
role_eq prefill prefill = true
role_eq decode decode = true
role_eq _ _ = false

pub record Scheduler : Type 0 where
  pub n_sp_groups : ℕ
  pub group_roles : List Role
  pub group_request_ids : List ℕ
  pub next_request_id : ℕ

-- The assertions that fail.
pub data Error : Type 0 where
  group_out_of_range not_in_prefill : Error

-- the constructor
unfoldable pub create : ℕ → Scheduler
create n = record {
  n_sp_groups = n;
  group_roles = replicate n idle;
  group_request_ids = replicate n u32_max;
  next_request_id = 0;
}

-- The loops of the finders: the first group at or after `i` with the role, or `UINT32_MAX`.
unfoldable pub find_role : Role → List Role → ℕ → ℕ
find_role role [] i = u32_max
find_role role (r ∷ rs) i =
    let rest = find_role role rs (i + 1) in if role_eq r role then i else rest

unfoldable pub assign_prefill : Scheduler → ℕ × Scheduler
assign_prefill s =
    let i = find_role idle s.group_roles 0 in
    if i == u32_max then (u32_max, s) else (
      i,
      record s {
        group_roles = set s.group_roles i prefill;
        group_request_ids = set s.group_request_ids i s.next_request_id;
        next_request_id = add32 s.next_request_id 1;
      },
    )

abbrev pub is_prefill : Option Role → Bool
is_prefill none = false
is_prefill (some r) = role_eq r prefill

unfoldable pub transition_to_decode : ℕ → Scheduler → Result Error Scheduler
transition_to_decode sp_group_id s = do
  guard (ltb sp_group_id s.n_sp_groups) group_out_of_range
  guard (is_prefill (get_elem? s.group_roles sp_group_id)) not_in_prefill
  ok (record s { group_roles = set s.group_roles sp_group_id decode })

unfoldable pub release_group : ℕ → Scheduler → Result Error Scheduler
release_group sp_group_id s = do
  guard (ltb sp_group_id s.n_sp_groups) group_out_of_range
  ok (record s {
    group_roles = set s.group_roles sp_group_id idle;
    group_request_ids = set s.group_request_ids sp_group_id u32_max;
  })

unfoldable pub find_decode_group : Scheduler → ℕ
find_decode_group s = find_role decode s.group_roles 0

unfoldable pub find_prefill_group : Scheduler → ℕ
find_prefill_group s = find_role prefill s.group_roles 0

has_role : Role → List Role → Bool
has_role role [] = false
has_role role (r ∷ rs) = let rest = has_role role rs in if role_eq r role then true else rest

unfoldable pub has_idle : Scheduler → Bool
unfolding has_role
has_idle s = has_role idle s.group_roles

unfoldable pub has_decode : Scheduler → Bool
unfolding find_decode_group
has_decode s = not (find_decode_group s == u32_max)

unfoldable pub has_prefill : Scheduler → Bool
unfolding find_prefill_group
has_prefill s = not (find_prefill_group s == u32_max)

-- The calls that change the scheduler, in any order.
pub data Call : Type 0 where
  assigns : Call
  transitions releases : ℕ → Call

-- A failed assertion leaves no next state.
unfoldable pub step : Call → Scheduler → Result Error Scheduler
step assigns s = ok (assign_prefill s).1
step (transitions i) s = transition_to_decode i s
step (releases i) s = release_group i s

unfoldable pub run : List Call → Scheduler → Result Error Scheduler
run [] s = ok s
run (c ∷ cs) s = step c s >>= run cs
