-- ===== src/Wire/Codec/Laws.antt =====
-- src/nn/nn-network.cpp: what is written is read back.
use prefill_opt.Prelude.{
  ℕ, zero, suc, ◌/◌, ◌^◌, ◌<◌, ◌≡◌, ◌≢◌, refl, ap, subst, ok, List, [], ◌∷◌, ◌++◌, length,
  get_elem?, some, arith, u32, u64, c_string,
}
use mathlib.Core.Option.{some-injective}
use prefill_opt.Wire.Codec.{
  Reader, Writer, le_bytes, from_le_bytes, write32, write64, read_bytes, read32, read64, write_ack,
  read_ack, ack, write_string, read_string, write_all, read_many,
}

unfoldable pub All {ℓ κ} : {A : Type ℓ} → (A → Type κ) → List A → Type κ
All P [] = Unit
All P (x ∷ xs) = P x × All P xs

pub get_elem?-All {ℓ κ} :
    {A : Type ℓ} (P : A → Type κ) (xs : List A) (i : ℕ) {x : A}
    → All P xs
    → get_elem? xs i ≡ some x
    → P x
unfolding All
get_elem?-All P [] i a h = cc
get_elem?-All P (x ∷ xs) zero (p, a) h = subst P (some-injective _ _ h) p
get_elem?-All P (x ∷ xs) (suc i) (p, a) h = get_elem?-All P xs i a h

unfoldable pub IsText : List ℕ → Type 0
IsText = All λ c. c ≢ 0

pub length-le_bytes : (k n : ℕ) → length (le_bytes k n) ≡ k
unfolding le_bytes
length-le_bytes zero n = refl
length-le_bytes (suc k) n = ap suc (length-le_bytes k (n / 256))

pub from_le_bytes-le_bytes : (k n : ℕ) → n < 256 ^ k → from_le_bytes (le_bytes k n) ≡ n
unfolding le_bytes from_le_bytes
from_le_bytes-le_bytes zero n h = omega arith
from_le_bytes-le_bytes (suc k) n h = omega (arith, from_le_bytes-le_bytes k (n / 256) (omega arith))

pub read_bytes-append :
    (bytes out : List ℕ) → read_bytes (length bytes) (bytes ++ out) ≡ ok (bytes, out)
unfolding read_bytes
read_bytes-append [] out = refl
read_bytes-append (b ∷ bytes) out = rw (read_bytes-append bytes out)

read_bytes-le_bytes :
    (k n : ℕ) (out : List ℕ) → read_bytes k (le_bytes k n ++ out) ≡ ok (le_bytes k n, out)
read_bytes-le_bytes k n out =
    subst (λ m. read_bytes m (le_bytes k n ++ out) ≡ ok (le_bytes k n, out)) (length-le_bytes k n)
      (read_bytes-append (le_bytes k n) out)

pub read32-write32 : (n : ℕ) (out : List ℕ) → n < u32 → read32 (write32 n out) ≡ ok (n, out)
unfolding read32 write32
read32-write32 n out h = rw (read_bytes-le_bytes 4 n out, from_le_bytes-le_bytes 4 n h)

pub read64-write64 : (n : ℕ) (out : List ℕ) → n < u64 → read64 (write64 n out) ≡ ok (n, out)
unfolding read64 write64
read64-write64 n out h = rw (read_bytes-le_bytes 8 n out, from_le_bytes-le_bytes 8 n h)

pub read_ack-write_ack : (out : List ℕ) → read_ack (write_ack out) ≡ ok (tt, out)
unfolding read_ack write_ack
read_ack-write_ack out = rw (read32-write32 ack out (omega arith))

pub c_string-text : (text : List ℕ) → IsText text → c_string (text ++ 0 ∷ []) ≡ text
unfolding c_string IsText All
c_string-text [] h = refl
c_string-text (c ∷ cs) (c0, h) = ground (arith, c_string-text cs h)

pub read_bytes-text :
    (text out : List ℕ)
    → read_bytes (suc (length text)) (text ++ 0 ∷ out) ≡ ok (text ++ 0 ∷ [], out)
unfolding read_bytes
read_bytes-text [] out = refl
read_bytes-text (c ∷ cs) out = rw (read_bytes-text cs out)

pub read_string-write_string :
    (text out : List ℕ)
    → IsText text
    → suc (length text) < u32
    → read_string (write_string text out) ≡ ok (text, out)
unfolding read_string write_string
read_string-write_string text out h b = rw (
  read32-write32 (suc (length text)) (text ++ 0 ∷ out) b,
  read_bytes-text text out,
  c_string-text text h,
)

pub read_many-write_all {ℓ κ} :
    {A : Type ℓ} {P : A → Type κ} (read : Reader A) (write : A → Writer)
    → ((a : A) (out : List ℕ) → P a → read (write a out) ≡ ok (a, out))
    → (xs : List A) (out : List ℕ) → All P xs
    → read_many read (length xs) (write_all write xs out) ≡ ok (xs, out)
unfolding read_many write_all All
read_many-write_all read write each [] out h = refl
read_many-write_all read write each (x ∷ xs) out (p, h) =
    rw (each x (write_all write xs out) p, read_many-write_all read write each xs out h)
