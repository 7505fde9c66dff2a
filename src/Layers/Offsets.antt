-- ===== src/Layers/Offsets.antt =====
-- src/llm.cpp: the offsets that the loader is told lead from the first sub-block to the last.
use native.Mathlib.Nat.{mul-div-le}
use prefill_opt.Prelude.{
  ℕ, zero, suc, ◌*◌, ◌/◌, ◌<◌, ◌≡◌, subst, Bool, true, false, if◌then◌else◌, mul32, ok, ◌>>=◌,
  >>=-eq-ok, ok-inj, List, [], ◌∷◌, get_or, get_elem?, some, arith, u32, mul32-eq,
}
use prefill_opt.Layers.{
  starts_from, build_sub_block_offsets, build_layer_start_offsets, is_sub_mode, Split, split_layers,
  sub_for_loader, sub_start,
}
use prefill_opt.Layers.Ranges.{
  total, Laid, given_offsets-Laid, starts_from-Laid, doubled, doubled-Laid,
}

by_sub_blocks : List ℕ → Split
by_sub_blocks offsets = record { sub_mode = true; offsets = offsets }

by_layers : List ℕ → Split
by_layers offsets = record { sub_mode = false; offsets = offsets }

even-Laid :
    (n_layers left : ℕ)
    → n_layers * 2 < u32
    → Laid 0
        (n_layers * 2)
        (suc left)
        (doubled (starts_from (suc left) (n_layers / suc left) 0 n_layers))
even-Laid n_layers left s =
    doubled-Laid 0 n_layers (suc left) (starts_from (suc left) (n_layers / suc left) 0 n_layers) s (
      subst
        (λ k. Laid k n_layers (suc left) (starts_from (suc left) (n_layers / suc left) 0 n_layers))
        (omega arith)
        (starts_from-Laid left (n_layers / suc left) 0 n_layers
          (omega (arith, mul-div-le n_layers (suc left))) (omega (arith, s))))

pub split_layers-Laid :
    (n_layers left : ℕ) (counts : List ℕ) {split : Split}
    → n_layers * 2 < u32
    → total counts < u32
    → split_layers n_layers (suc left) counts ≡ ok split
    → Laid 0 (n_layers * 2) (suc left) (sub_for_loader split)
unfolding split_layers is_sub_mode build_layer_start_offsets build_sub_block_offsets sub_for_loader
    by_sub_blocks by_layers
split_layers-Laid n_layers left [] {split} s t e =
    subst (λ p. Laid 0 (n_layers * 2) (suc left) (sub_for_loader p)) (ok-inj e)
      (even-Laid n_layers left s)
split_layers-Laid n_layers left (count ∷ counts) {split} s t e =
    branch (is_sub_mode n_layers (suc left) (count ∷ counts)) e
  where
    branch :
        (sub_mode : Bool)
        → (if sub_mode
            then build_sub_block_offsets n_layers (suc left) (count ∷ counts)
              >>= (λ offsets. ok (by_sub_blocks offsets))
            else build_layer_start_offsets n_layers (suc left) (count ∷ counts)
              >>= (λ offsets. ok (by_layers offsets)))
          ≡ ok split
        → Laid 0 (n_layers * 2) (suc left) (sub_for_loader split)
    branch true h =
        let (offsets, f, g) =
          >>=-eq-ok (build_sub_block_offsets n_layers (suc left) (count ∷ counts))
            (λ offsets. ok (by_sub_blocks offsets)) h in
        subst (λ p. Laid 0 (n_layers * 2) (suc left) (sub_for_loader p)) (ok-inj g)
          (subst (λ k. Laid 0 k (suc left) offsets) (mul32-eq n_layers 2 s)
            (given_offsets-Laid (mul32 n_layers 2) (suc left) (count ∷ counts) t f))
    branch false h =
        let (offsets, f, g) =
          >>=-eq-ok (build_layer_start_offsets n_layers (suc left) (count ∷ counts))
            (λ offsets. ok (by_layers offsets)) h in
        subst (λ p. Laid 0 (n_layers * 2) (suc left) (sub_for_loader p)) (ok-inj g)
          (doubled-Laid 0 n_layers (suc left) offsets s
            (given_offsets-Laid n_layers (suc left) (count ∷ counts) t f))

get_or-at :
    (offsets : List ℕ) (i : ℕ) {a : ℕ} → get_elem? offsets i ≡ some a → get_or offsets i 0 ≡ a
get_or-at [] i e = cc
get_or-at (x ∷ offsets) zero e = cc
get_or-at (x ∷ offsets) (suc i) e = get_or-at offsets i e

get_or-doubled :
    (offsets : List ℕ) (i : ℕ) {a : ℕ}
    → get_elem? (doubled offsets) i ≡ some a
    → mul32 (get_or offsets i 0) 2 ≡ a
get_or-doubled [] i e = cc
get_or-doubled (x ∷ offsets) zero e = cc
get_or-doubled (x ∷ offsets) (suc i) e = get_or-doubled offsets i e

-- The graph and the loader have the same ranges.
pub sub_start-eq :
    (split : Split) (i : ℕ) {a : ℕ}
    → get_elem? (sub_for_loader split) i ≡ some a
    → sub_start split i ≡ a
unfolding sub_for_loader sub_start
sub_start-eq split i {a} e = in_mode split.sub_mode split.offsets e
  where
    in_mode :
        (sub_mode : Bool) (offsets : List ℕ)
        → get_elem? (sub_for_loader (record { sub_mode = sub_mode; offsets = offsets })) i ≡ some a
        → sub_start (record { sub_mode = sub_mode; offsets = offsets }) i ≡ a
    in_mode true offsets f = get_or-at offsets i f
    in_mode false offsets f = get_or-doubled offsets i f
