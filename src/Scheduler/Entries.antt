-- ===== src/Scheduler/Entries.antt =====
-- The two vectors of the scheduler, group by group.
use prefill_opt.Prelude.{
  ℕ, zero, suc, ◌≤◌, ◌<◌, ◌≡◌, ◌≢◌, ◌⊎◌, inl, inr, refl, arith, List, [], ◌∷◌, get_elem?, set,
  replicate, u32_max, true, ℕ_discrete, some,
}
use prefill_opt.Scheduler.{Role, idle, decode, is_prefill}

-- A group is idle exactly when it has no request; a request is one of those counted so far.
abbrev pub Entry : ℕ → Role → ℕ → Type 0
Entry next r id = ((r ≡ idle) × (id ≡ u32_max)) ⊎ ((r ≢ idle) × (id < next))

abbrev pub Entries : ℕ → List Role → List ℕ → Type 0
Entries next [] [] = Unit
Entries next [] (id ∷ ids) = ⊥
Entries next (r ∷ rs) [] = ⊥
Entries next (r ∷ rs) (id ∷ ids) = Entry next r id × Entries next rs ids

abbrev pub NotIn : ℕ → List ℕ → Type 0
NotIn v [] = Unit
NotIn v (x ∷ xs) = (v ≢ x) × NotIn v xs

-- No request is in two groups.
abbrev pub Distinct : List ℕ → Type 0
Distinct [] = Unit
Distinct (x ∷ xs) = ((x ≡ u32_max) ⊎ NotIn x xs) × Distinct xs

Entries-mono :
    (next next' : ℕ) (rs : List Role) (ids : List ℕ)
    → next ≤ next'
    → Entries next rs ids
    → Entries next' rs ids
Entries-mono next next' [] [] l h = tt
Entries-mono next next' [] (id ∷ ids) l h = absurd h
Entries-mono next next' (q ∷ rs) [] l h = absurd h
Entries-mono next next' (q ∷ rs) (id ∷ ids) l h =
    (ground (arith, h.0), Entries-mono next next' rs ids l h.1)

pub Entries-set :
    (next next' : ℕ) (rs : List Role) (ids : List ℕ) (i : ℕ) (r : Role) (v : ℕ)
    → next ≤ next'
    → Entry next' r v
    → Entries next rs ids
    → Entries next' (set rs i r) (set ids i v)
Entries-set next next' [] [] i r v l e h = tt
Entries-set next next' [] (id ∷ ids) i r v l e h = absurd h
Entries-set next next' (q ∷ rs) [] i r v l e h = absurd h
Entries-set next next' (q ∷ rs) (id ∷ ids) zero r v l e h =
    (e, Entries-mono next next' rs ids l h.1)
Entries-set next next' (q ∷ rs) (id ∷ ids) (suc i) r v l e h =
    (ground (arith, h.0), Entries-set next next' rs ids i r v l e h.1)

-- From PREFILL to DECODE a group keeps its request.
pub Entries-decode :
    (next : ℕ) (rs : List Role) (ids : List ℕ) (i : ℕ)
    → is_prefill (get_elem? rs i) ≡ true
    → Entries next rs ids
    → Entries next (set rs i decode) ids
Entries-decode next [] [] i p h = tt
Entries-decode next [] (id ∷ ids) i p h = absurd h
Entries-decode next (q ∷ rs) [] i p h = absurd h
Entries-decode next (q ∷ rs) (id ∷ ids) zero p h = (ground (arith, h.0), h.1)
Entries-decode next (q ∷ rs) (id ∷ ids) (suc i) p h = (h.0, Entries-decode next rs ids i p h.1)

pub Entries-start : (n : ℕ) → Entries 0 (replicate n idle) (replicate n u32_max)
Entries-start zero = tt
Entries-start (suc n) = (inl (refl, refl), Entries-start n)

-- The next request is in no group yet.
pub next-NotIn :
    (next : ℕ) (rs : List Role) (ids : List ℕ)
    → next < u32_max
    → Entries next rs ids
    → NotIn next ids
next-NotIn next [] [] l h = tt
next-NotIn next [] (id ∷ ids) l h = absurd h
next-NotIn next (q ∷ rs) [] l h = absurd h
next-NotIn next (q ∷ rs) (id ∷ ids) l h = (ground (arith, h.0), next-NotIn next rs ids l h.1)

NotIn-set : (x v : ℕ) (xs : List ℕ) (i : ℕ) → x ≢ v → NotIn x xs → NotIn x (set xs i v)
NotIn-set x v [] i ne h = tt
NotIn-set x v (y ∷ xs) zero ne h = (ne, h.1)
NotIn-set x v (y ∷ xs) (suc i) ne h = (h.0, NotIn-set x v xs i ne h.1)

pub Distinct-set :
    (v : ℕ) (xs : List ℕ) (i : ℕ) → (v ≡ u32_max) ⊎ NotIn v xs → Distinct xs → Distinct (set xs i v)
Distinct-set v [] i n h = tt
Distinct-set v (x ∷ xs) zero n h = (elim n [ inl e ↦ inl e | inr m ↦ inr m.1 ], h.1)
Distinct-set v (x ∷ xs) (suc i) n h = (
  elim (ℕ_discrete x u32_max) [
    | yes e ↦ inl e
    | no ne ↦ elim h.0 [ inl e ↦ absurd (ne e) | inr k ↦ inr (NotIn-set x v xs i (differs ne) k) ]
  ],
  Distinct-set v xs i (elim n [ inl e ↦ inl e | inr m ↦ inr m.1 ]) h.1,
)
  where
    differs : x ≢ u32_max → x ≢ v
    differs ne = elim n [ inl e ↦ omega (arith, ne, e) | inr m ↦ omega (arith, m.0) ]

pub Distinct-start : (n : ℕ) → Distinct (replicate n u32_max)
Distinct-start zero = tt
Distinct-start (suc n) = (inl refl, Distinct-start n)

-- An idle group holds no request.
pub idle-free :
    (next : ℕ) (rs : List Role) (ids : List ℕ) (i : ℕ)
    → Entries next rs ids
    → get_elem? rs i ≡ some idle
    → get_elem? ids i ≡ some u32_max
idle-free next [] ids i h e = cc
idle-free next (r ∷ rs) [] i h e = absurd h
idle-free next (r ∷ rs) (id ∷ ids) zero h e = ground (arith, h.0)
idle-free next (r ∷ rs) (id ∷ ids) (suc i) h e = idle-free next rs ids i h.1 e
