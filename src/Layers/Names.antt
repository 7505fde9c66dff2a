-- ===== src/Layers/Names.antt =====
-- src/llm.cpp and src/nn/nn-network.cpp: the loader and the graph agree on the sub-block of an operator.
use prefill_opt.Prelude.{
  ℕ, ◌≡◌, ◌⊎◌, inl, inr, refl, subst, Bool, true, false, List, [], ◌∷◌, ◌++◌, if◌then◌else◌, some,
  contains,
}
use prefill_opt.Wire.Codec.Laws.{All}
use prefill_opt.Weights.{sub_part_of_op}
use prefill_opt.Layers.{ArchType, llama, qwen3, qwen3_moe, att_weights, ff_weights}

-- The name is in the list.
unfoldable pub Listed : List ℕ → List (List ℕ) → Type 0
Listed name [] = ⊥
Listed name (x ∷ names) = (x ≡ name) ⊎ Listed name names

Listed-All :
    (P : List ℕ → Type 0) (name : List ℕ) (names : List (List ℕ))
    → All P names
    → Listed name names
    → P name
unfolding Listed All
Listed-All P name [] h m = absurd m
Listed-All P name (x ∷ names) (p, h) (inl e) = subst P e p
Listed-All P name (x ∷ names) (p, h) (inr m) = Listed-All P name names h m

Listed-left : (name : List ℕ) (xs ys : List (List ℕ)) → Listed name xs → Listed name (xs ++ ys)
unfolding Listed
Listed-left name [] ys h = absurd h
Listed-left name (x ∷ xs) ys (inl e) = inl e
Listed-left name (x ∷ xs) ys (inr h) = inr (Listed-left name xs ys h)

Listed-right : (name : List ℕ) (xs ys : List (List ℕ)) → Listed name ys → Listed name (xs ++ ys)
unfolding Listed
Listed-right name [] ys h = h
Listed-right name (x ∷ xs) ys h = inr (Listed-right name xs ys h)

Listed-split :
    (name : List ℕ) (xs ys : List (List ℕ))
    → Listed name (xs ++ ys)
    → Listed name xs ⊎ Listed name ys
unfolding Listed
Listed-split name [] ys h = inr h
Listed-split name (x ∷ xs) ys (inl e) = inl (inl e)
Listed-split name (x ∷ xs) ys (inr h) = elim (Listed-split name xs ys h) [
  | inl a ↦ inl (inr a)
  | inr b ↦ inr b
]

pub part-att :
    (arch : ArchType) (name : List ℕ)
    → Listed name (att_weights arch)
    → sub_part_of_op (some name) ≡ 0
unfolding All att_weights sub_part_of_op contains
part-att arch name =
    Listed-All (λ n. sub_part_of_op (some n) ≡ 0) name (att_weights arch) (all arch)
  where
    all : (a : ArchType) → All (λ n. sub_part_of_op (some n) ≡ 0) (att_weights a)
    all llama = (refl, (refl, (refl, (refl, (refl, tt)))))
    all qwen3 = (refl, (refl, (refl, (refl, (refl, (refl, (refl, tt)))))))
    all qwen3_moe = (refl, (refl, (refl, (refl, (refl, (refl, (refl, tt)))))))

pub part-ff :
    (arch : ArchType) (name : List ℕ)
    → Listed name (ff_weights arch)
    → sub_part_of_op (some name) ≡ 1
unfolding All ff_weights sub_part_of_op contains
part-ff arch name = Listed-All (λ n. sub_part_of_op (some n) ≡ 1) name (ff_weights arch) (all arch)
  where
    all : (a : ArchType) → All (λ n. sub_part_of_op (some n) ≡ 1) (ff_weights a)
    all llama = (refl, (refl, (refl, (refl, tt))))
    all qwen3 = (refl, (refl, (refl, (refl, tt))))
    all qwen3_moe = (refl, (refl, (refl, (refl, (refl, tt)))))

-- The operators of a layer that the tests let through.
abbrev pub chosen : Bool → Bool → Bool → List (List ℕ) → List (List ℕ) → List (List ℕ)
chosen inside att ff xs ys =
    if inside then (if att then xs else []) ++ (if ff then ys else []) else []

pub chosen-left :
    (name : List ℕ) (inside att ff : Bool) (xs ys : List (List ℕ))
    → inside ≡ true
    → att ≡ true
    → Listed name xs
    → Listed name (chosen inside att ff xs ys)
chosen-left name inside att ff xs ys i a h = rw (i, a) (Listed-left name xs _ h)

pub chosen-right :
    (name : List ℕ) (inside att ff : Bool) (xs ys : List (List ℕ))
    → inside ≡ true
    → ff ≡ true
    → Listed name ys
    → Listed name (chosen inside att ff xs ys)
chosen-right name inside att ff xs ys i f h =
    rw (i, f) (Listed-right name (if att then xs else []) ys h)

pub chosen-only :
    (name : List ℕ) (inside att ff : Bool) (xs ys : List (List ℕ))
    → Listed name (chosen inside att ff xs ys)
    → ((att ≡ true) × Listed name xs) ⊎ ((ff ≡ true) × Listed name ys)
unfolding Listed
chosen-only name false att ff xs ys h = absurd h
chosen-only name true false false xs ys h = absurd h
chosen-only name true true false xs ys h = elim (Listed-split name xs [] h) [
  | inl a ↦ inl (refl, a)
  | inr b ↦ absurd b
]
chosen-only name true false true xs ys h = inr (refl, h)
chosen-only name true true true xs ys h = elim (Listed-split name xs ys h) [
  | inl a ↦ inl (refl, a)
  | inr b ↦ inr (refl, b)
]
