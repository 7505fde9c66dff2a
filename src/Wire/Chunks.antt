-- ===== src/Wire/Chunks.antt =====
-- src/nn/nn-network.cpp, the loops of `NnNetwork::write` and `NnNetwork::read` over chunks, whose size each
-- node takes from its own environment. The list is what `current` has not reached.
mod Tests
use prefill_opt.Prelude.{
  ℕ, zero, suc, ◌+◌, ◌-◌, ◌<◌, ◌≤◌, ◌≡◌, refl, sym, ap, ◌∙◌, subst, List, [], ◌∷◌, ◌++◌, length,
  take, drop, ltb, if◌then◌else◌, ok, err, arith, min, take-append-drop, length-drop, Bool-cases,
  inl, inr, Result,
}
use prefill_opt.Wire.Codec.{Writer, Reader, WireError, closed, continue, ◌>>=◌, pure, read_bytes}
use prefill_opt.Wire.Codec.Laws.{read_bytes-append}

-- `chunk + ioChunkSize < size ? ioChunkSize : size - chunk`, for what is left of the size
unfoldable pub chunk_size : ℕ → ℕ → ℕ
chunk_size io left = if ltb io left then io else left

-- `writeSocket`
abbrev pub write_socket : List ℕ → Writer
write_socket chunk out = chunk ++ out

-- One unit of fuel for each chunk; the function writes, and reads, a chunk.
unfoldable pub write_chunks : (List ℕ → Writer) → ℕ → ℕ → List ℕ → Writer
write_chunks write zero io current out = out
write_chunks write (suc fuel) io [] out = out
write_chunks write (suc fuel) io (b ∷ current) out =
    let n = chunk_size io (suc (length current)) in
    write (take n (b ∷ current)) (write_chunks write fuel io (drop n (b ∷ current)) out)

unfoldable pub read_chunks : (ℕ → Reader (List ℕ)) → ℕ → ℕ → ℕ → Reader (List ℕ)
read_chunks read zero io left = pure []
read_chunks read (suc fuel) io zero = pure []
read_chunks read (suc fuel) io (suc left) =
    let n = chunk_size io (suc left) in
    do chunk ← read n; rest ← read_chunks read fuel io (suc left - n); pure (chunk ++ rest)

-- As many chunks as there are bytes are enough.
unfoldable pub net_write : ℕ → List ℕ → Writer
net_write io message out = write_chunks write_socket (length message) io message out

unfoldable pub net_read : ℕ → ℕ → Reader (List ℕ)
net_read io size bytes = read_chunks read_bytes size io size bytes

chunk_size-bounds :
    (io left : ℕ) → 0 < io → 0 < left → (0 < chunk_size io left) × (chunk_size io left ≤ left)
unfolding chunk_size
chunk_size-bounds io left p l = ground arith

append_assoc : (a b c : List ℕ) → (a ++ b) ++ c ≡ a ++ (b ++ c)
append_assoc [] b c = refl
append_assoc (x ∷ a) b c = ap (λ r. x ∷ r) (append_assoc a b c)

pub write_chunks-eq :
    (write : List ℕ → Writer)
    → ((chunk out : List ℕ) → write chunk out ≡ chunk ++ out)
    → (fuel io : ℕ) (current out : List ℕ) → 0 < io
    → length current ≤ fuel
    → write_chunks write fuel io current out ≡ current ++ out
unfolding write_chunks
write_chunks-eq write each zero io [] out p l = refl
write_chunks-eq write each zero io (b ∷ current) out p l = absurd (omega arith)
write_chunks-eq write each (suc fuel) io [] out p l = refl
write_chunks-eq write each (suc fuel) io (b ∷ current) out p l =
    let n = chunk_size io (suc (length current)) in
    let all = b ∷ current in
    each (take n all) (write_chunks write fuel io (drop n all) out)
    ∙ ap (λ r. take n all ++ r)
        (write_chunks-eq write each fuel io (drop n all) out p (
          omega (
            arith,
            l,
            length-drop n all,
            chunk_size-bounds io (suc (length current)) p (omega arith),
          )))
    ∙ sym (append_assoc (take n all) (drop n all) out)
    ∙ ap (λ r. r ++ out) (take-append-drop n all)

-- What is read of `m` bytes behind `a`.
then_read : ℕ → List ℕ → Reader (List ℕ)
then_read m a = read_bytes m >>= λ b. pure (a ++ b)

continue-pure : (step : Result WireError (List ℕ × List ℕ)) → continue step (λ b. pure b) ≡ step
continue-pure (ok (a, rest)) = refl
continue-pure (err e) = refl

cons_later :
    (b : ℕ) (m : ℕ) (step : Result WireError (List ℕ × List ℕ))
    → continue (continue step (λ more. pure (b ∷ more))) (then_read m)
      ≡ continue (continue step (then_read m)) (λ more. pure (b ∷ more))
unfolding then_read
cons_later b m (err e) = refl
cons_later b m (ok (a, rest)) = after (read_bytes m rest)
  where
    after :
        (step : Result WireError (List ℕ × List ℕ))
        → continue step (λ c. pure (b ∷ (a ++ c)))
          ≡ continue (continue step (λ c. pure (a ++ c))) (λ more. pure (b ∷ more))
    after (err e) = refl
    after (ok (c, left)) = refl

-- A read of a chunk and then of the rest is a read of both.
read_split :
    (n m total : ℕ) (bytes : List ℕ)
    → total ≡ n + m
    → continue (read_bytes n bytes) (then_read m) ≡ read_bytes total bytes
unfolding read_bytes then_read
read_split zero m total bytes e =
    continue-pure (read_bytes m bytes) ∙ ap (λ k. read_bytes k bytes) (omega (arith, e))
read_split (suc n) m zero bytes e = absurd (omega arith)
read_split (suc n) m (suc total) [] e = refl
read_split (suc n) m (suc total) (b ∷ bytes) e =
    cons_later b m (read_bytes n bytes)
    ∙ ap (λ step. continue step (λ more. pure (b ∷ more)))
        (read_split n m total bytes (omega (arith, e)))

pub read_chunks-eq :
    (read : ℕ → Reader (List ℕ))
    → ((n : ℕ) (bytes : List ℕ) → read n bytes ≡ read_bytes n bytes)
    → (fuel io left : ℕ) (bytes : List ℕ) → 0 < io
    → left ≤ fuel
    → read_chunks read fuel io left bytes ≡ read_bytes left bytes
unfolding read_chunks read_bytes then_read
read_chunks-eq read each zero io zero bytes p l = refl
read_chunks-eq read each zero io (suc left) bytes p l = absurd (omega arith)
read_chunks-eq read each (suc fuel) io zero bytes p l = refl
read_chunks-eq read each (suc fuel) io (suc left) bytes p l =
    ap (λ step. continue step (λ a. read_chunks read fuel io (suc left - n) >>= λ b. pure (a ++ b)))
      (each n bytes)
    ∙ same_rest (read_bytes n bytes) (λ rest.
      read_chunks-eq read each fuel io (suc left - n) rest p (omega (arith, l, bounds.0)))
    ∙ read_split n (suc left - n) (suc left) bytes (omega (arith, bounds.1))
  where
    n : ℕ
    n = chunk_size io (suc left)

    bounds : (0 < n) × (n ≤ suc left)
    bounds = chunk_size-bounds io (suc left) p (omega arith)

    same_rest :
        (step : Result WireError (List ℕ × List ℕ))
        → ((rest : List ℕ)
            → read_chunks read fuel io (suc left - n) rest ≡ read_bytes (suc left - n) rest)
        → continue step (λ a. read_chunks read fuel io (suc left - n) >>= λ b. pure (a ++ b))
          ≡ continue step (then_read (suc left - n))
    same_rest (err e) rec = refl
    same_rest (ok (a, rest)) rec = ap (λ s. continue s (λ b. pure (a ++ b))) (rec rest)

-- Bytes that one node writes in chunks of its size are read back by a node that reads them in chunks of
-- another, and whatever follows is left; and a socket that closes before all have come is an error for
-- every chunk size, just as it is for one read. Both sizes must be positive.
pub chunks_lem :
    (a b : ℕ) (message : List ℕ)
    → 0 < a
    → 0 < b
    → ((out : List ℕ) → net_read b (length message) (net_write a message out) ≡ ok (message, out))
      × ((size : ℕ) (bytes : List ℕ) → net_read b size bytes ≡ read_bytes size bytes)
unfolding net_read net_write
chunks_lem a b message p q = (
  (λ out.
      read_chunks-eq read_bytes (λ _ _. refl) (length message) b (length message) _ q (omega arith)
      ∙ ap (read_bytes (length message)) (
          write_chunks-eq write_socket (λ _ _. refl) (length message) a message out p (omega arith))
      ∙ read_bytes-append message out),
  λ size bytes. read_chunks-eq read_bytes (λ _ _. refl) size b size bytes q (omega arith),
)
