-- ===== src/Wire/Codec/Prefix.antt =====
-- src/nn/nn-network.cpp: what a reader does when the socket is closed on the way.
use prefill_opt.Prelude.{
  ℕ, zero, suc, ◌≡◌, refl, sym, Result, ok, err, List, [], ◌∷◌, ◌++◌, ◌⊎◌, inl, inr, ◌==◌, Bool,
  true, false, if◌then◌else◌,
}
use prefill_opt.Wire.Codec.{
  Reader, WireError, closed, fail, continue, ◌>>=◌, pure, read_bytes, read32, read64, read_ack, ack,
  read_string, read_many,
}

-- A reader that succeeds on some bytes and gets only a first part of them either finds the socket
-- closed or has what it needs and leaves less.
abbrev pub Stops {ℓ} : {A : Type ℓ} → Reader A → List ℕ → List ℕ → A → List ℕ → Type ℓ
Stops read part lost a rest =
    (read part ≡ err closed) ⊎ (left : List ℕ) × (rest ≡ left ++ lost) × (read part ≡ ok (a, left))

pub IsHonest {ℓ} : {A : Type ℓ} → Reader A → Type ℓ
IsHonest {A} read =
    (part lost : List ℕ) (a : A) (rest : List ℕ)
    → read (part ++ lost) ≡ ok (a, rest)
    → Stops read part lost a rest

continue-eq-ok {ℓ κ} :
    {A : Type ℓ} {B : Type κ} (step : Result WireError (A × List ℕ)) (next : A → Reader B) {b : B}
    {rest : List ℕ}
    → continue step next ≡ ok (b, rest)
    → (a : A) × (left : List ℕ) × (step ≡ ok (a, left)) × (next a left ≡ ok (b, rest))
continue-eq-ok (err e) next h = cc
continue-eq-ok (ok (a, left)) next h = (a, left, refl, h)

pub pure-IsHonest {ℓ} : {A : Type ℓ} (a : A) → IsHonest (pure a)
unfolding IsHonest
pure-IsHonest a part lost b rest h = inr (part, cc, cc)

pub fail-IsHonest {ℓ} : (A : Type ℓ) (e : WireError) → IsHonest (fail {A = A} e)
unfolding IsHonest
fail-IsHonest A e part lost b rest h = cc

pub bind-IsHonest {ℓ κ} :
    {A : Type ℓ} {B : Type κ} (read : Reader A) (next : A → Reader B)
    → IsHonest read
    → ((a : A) → IsHonest (next a))
    → IsHonest (read >>= next)
unfolding IsHonest
bind-IsHonest read next f g part lost b rest h =
    let (a, mid, e, n) = continue-eq-ok (read (part ++ lost)) next h in
    elim (f part lost a mid e) [
      | inl stop ↦ inl (rw stop)
      | inr (left, q, r) ↦ elim (g a left lost b rest (rw (sym q) n)) [
        | inl stop ↦ inl (rw (r, stop))
        | inr (last, u, v) ↦ inr (last, u, rw (r, v))
      ]
    ]

pub if-IsHonest {ℓ} :
    {A : Type ℓ} (test : Bool) (one other : Reader A)
    → IsHonest one
    → IsHonest other
    → IsHonest (if test then one else other)
if-IsHonest true one other f g = f
if-IsHonest false one other f g = g

pub read_bytes-IsHonest : (n : ℕ) → IsHonest (read_bytes n)
unfolding IsHonest read_bytes
read_bytes-IsHonest zero part lost a rest h = inr (part, cc, cc)
read_bytes-IsHonest (suc n) [] lost a rest h = inl refl
read_bytes-IsHonest (suc n) (b ∷ part) lost a rest h =
    bind-IsHonest (read_bytes n) (λ more. pure (b ∷ more)) (read_bytes-IsHonest n)
      (λ more. pure-IsHonest (b ∷ more)) part lost a rest h

pub read32-IsHonest : IsHonest read32
unfolding read32
read32-IsHonest = bind-IsHonest _ _ (read_bytes-IsHonest 4) λ bytes. pure-IsHonest _

pub read64-IsHonest : IsHonest read64
unfolding read64
read64-IsHonest = bind-IsHonest _ _ (read_bytes-IsHonest 8) λ bytes. pure-IsHonest _

pub read_ack-IsHonest : IsHonest read_ack
unfolding read_ack
read_ack-IsHonest =
    bind-IsHonest _ _ read32-IsHonest
      λ packet. if-IsHonest (packet == ack) _ _ (pure-IsHonest tt) (fail-IsHonest _ _)

pub read_string-IsHonest : IsHonest read_string
unfolding read_string
read_string-IsHonest =
    bind-IsHonest _ _ read32-IsHonest
      λ n. bind-IsHonest _ _ (read_bytes-IsHonest n) λ bytes. pure-IsHonest _

pub read_many-IsHonest {ℓ} :
    {A : Type ℓ} (read : Reader A) → IsHonest read → (n : ℕ) → IsHonest (read_many read n)
unfolding read_many
read_many-IsHonest read f zero = pure-IsHonest []
read_many-IsHonest read f (suc n) =
    bind-IsHonest _ _ f
      λ first. bind-IsHonest _ _ (read_many-IsHonest read f n) λ rest. pure-IsHonest _

-- A message that is cut off anywhere.
pub cut_off {ℓ} :
    {A : Type ℓ} (read : Reader A) {a : A} (part : List ℕ) (b : ℕ) (lost : List ℕ)
    → IsHonest read
    → read (part ++ b ∷ lost) ≡ ok (a, [])
    → read part ≡ err closed
unfolding IsHonest
cut_off read part b lost f h = elim (f part (b ∷ lost) _ [] h) [
  | inl stop ↦ stop
  | inr (left, q, r) ↦ absurd (not_empty left q)
]
  where
    not_empty : (left : List ℕ) → [] ≡ left ++ b ∷ lost → ⊥
    not_empty [] q = cc
    not_empty (x ∷ left) q = cc
