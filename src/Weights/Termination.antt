-- ===== src/Weights/Termination.antt =====
-- src/nn/nn-network.cpp, `NnWorkerWeightReader::read`: the loop ends on all bytes, and its buffer.
use prefill_opt.Prelude.{
  ℕ, zero, suc, ◌+◌, ◌<◌, ◌≤◌, ◌≡◌, ◌≢◌, refl, Bool, true, false, List, [], ◌∷◌, ◌++◌, length, ltb,
  ◌==◌, if◌then◌else◌, Result, ok, err, Bool-cases, inl, inr, u32, u64, arith,
}
use prefill_opt.Wire.Codec.{
  Reader, WireError, buffer_overflow, out_of_fuel, pure, fail, continue, ◌>>=◌, read32, read64,
  read_bytes, write32, write64,
}
use prefill_opt.Wire.Codec.Laws.{read32-write32, read64-write64, read_bytes-text}
use prefill_opt.Wire.Config.Node.{SegmentConfig}
use prefill_opt.Weights.{Load}
use prefill_opt.Weights.Receive.{allocate, read_weight, read_weights, receive}

-- A step that has taken at least `n` of `given` bytes, or has failed, and not for want of fuel.
unfoldable Takes {ℓ} : {A : Type ℓ} → ℕ → ℕ → Result WireError (A × List ℕ) → Type 0
Takes n given (ok (a, rest)) = n + length rest ≤ given
Takes n given (err e) = e ≢ out_of_fuel

unfoldable IsGood {ℓ} : {A : Type ℓ} → ℕ → Reader A → Type 0
IsGood n read = (bytes : List ℕ) → Takes n (length bytes) (read bytes)

continue-Takes {ℓ κ} :
    {A : Type ℓ} {B : Type κ} (n m given : ℕ) (step : Result WireError (A × List ℕ))
    (next : A → Reader B)
    → Takes n given step
    → ((a : A) (rest : List ℕ) → n + length rest ≤ given → Takes m (length rest) (next a rest))
    → Takes (n + m) given (continue step next)
unfolding Takes
continue-Takes n m given (err e) next h g = h
continue-Takes {B} n m given (ok (a, rest)) next h g = more (next a rest) (g a rest h)
  where
    more :
        (last : Result WireError (B × List ℕ))
        → Takes m (length rest) last
        → Takes (n + m) given last
    more (err e) t = t
    more (ok (b, left)) t = omega (arith, h, t)

bind-IsGood {ℓ κ} :
    {A : Type ℓ} {B : Type κ} (n m : ℕ) (read : Reader A) (next : A → Reader B)
    → IsGood n read
    → ((a : A) → IsGood m (next a))
    → IsGood (n + m) (read >>= next)
unfolding IsGood
bind-IsGood n m read next f g bytes =
    continue-Takes n m (length bytes) (read bytes) next (f bytes) λ a rest h. g a rest

err-injective :
    {A : Type 0} {e f : WireError} → ◌≡◌ {A = Result WireError A} (err e) (err f) → e ≡ f
err-injective q = cc

pure-IsGood {ℓ} : {A : Type ℓ} (a : A) → IsGood 0 (pure a)
unfolding IsGood Takes
pure-IsGood a bytes = omega arith

read_bytes-IsGood : (n : ℕ) → IsGood n (read_bytes n)
unfolding IsGood Takes read_bytes
read_bytes-IsGood zero bytes = omega arith
read_bytes-IsGood (suc n) [] = λ e. cc
read_bytes-IsGood (suc n) (b ∷ bytes) = more (read_bytes n bytes) (read_bytes-IsGood n bytes)
  where
    more :
        (step : Result WireError (List ℕ × List ℕ))
        → Takes n (length bytes) step
        → Takes (suc n) (suc (length bytes)) (continue step (λ rest. pure (b ∷ rest)))
    more (err e) t = t
    more (ok (a, rest)) t = omega (arith, t)

fewer-Takes :
    {A : Type 0} (n given : ℕ) (step : Result WireError (A × List ℕ))
    → Takes n given step
    → Takes 0 given step
unfolding Takes
fewer-Takes n given (err e) t = t
fewer-Takes n given (ok (a, rest)) t = omega (arith, t)

weaken : {A : Type 0} (n : ℕ) (read : Reader A) → IsGood n read → IsGood 0 read
unfolding IsGood
weaken n read f bytes = fewer-Takes n (length bytes) (read bytes) (f bytes)

-- `e ≢ out_of_fuel` for the errors that the readers have.
overflow-ne : buffer_overflow ≢ out_of_fuel
overflow-ne e = cc

read32-IsGood : IsGood 4 read32
unfolding read32
read32-IsGood = bind-IsGood 4 0 _ _ (read_bytes-IsGood 4) λ b. pure-IsGood _

read64-IsGood : IsGood 8 read64
unfolding read64
read64-IsGood = bind-IsGood 8 0 _ _ (read_bytes-IsGood 8) λ b. pure-IsGood _

fill-IsGood :
    (temp n_bytes : ℕ)
    → IsGood 0 (if ltb temp n_bytes then fail buffer_overflow else read_bytes n_bytes)
unfolding IsGood Takes
fill-IsGood temp n_bytes = elim (Bool-cases (ltb temp n_bytes)) [
  | inl over ↦ rw over (λ bytes. overflow-ne)
  | inr fits ↦ rw fits (weaken n_bytes (read_bytes n_bytes) (read_bytes-IsGood n_bytes))
]

read_weight-IsGood : (temp name_size : ℕ) → IsGood 0 (read_weight temp name_size)
unfolding read_weight
read_weight-IsGood temp name_size =
    bind-IsGood 0 0 _ _ (weaken name_size _ (read_bytes-IsGood name_size)) λ name.
      bind-IsGood 0 0 _ _ (weaken 4 _ read32-IsGood) λ op_index.
        bind-IsGood 0 0 _ _ (weaken 8 _ read64-IsGood) λ offset.
          bind-IsGood 0 0 _ _ (weaken 8 _ read64-IsGood) λ n_bytes.
            bind-IsGood 0 0 _ _ (fill-IsGood (allocate temp n_bytes) n_bytes) λ bytes. pure-IsGood _

read_weights-Takes :
    (fuel : ℕ) (segments : List SegmentConfig) (temp : ℕ) (bytes : List ℕ)
    → length bytes < fuel
    → Takes 0 (length bytes) (read_weights fuel segments temp bytes)
unfolding read_weights Takes IsGood
read_weights-Takes zero segments temp bytes h = absurd (omega arith)
read_weights-Takes (suc fuel) segments temp bytes h = fewer-Takes 4 (length bytes) _ (
    continue-Takes 4 0 (length bytes) (read32 bytes) _ (read32-IsGood bytes) λ name_size rest l.
      if-Takes (name_size == 0) (pure []) _ rest (omega arith) (
        continue-Takes 0 0 (length rest) (read_weight temp name_size rest) _
          (read_weight-IsGood temp name_size rest)
          λ turn left m.
            continue-Takes 0 0 (length left) (read_weights fuel segments turn.1 left) _
              (read_weights-Takes fuel segments turn.1 left (omega (arith, h, l, m)))
              λ loads last n. omega (arith, n)))
  where
    if-Takes :
        (test : Bool) (one other : Reader (List Load)) (rest : List ℕ)
        → Takes 0 (length rest) (one rest)
        → Takes 0 (length rest) (other rest)
        → Takes 0 (length rest) ((if test then one else other) rest)
    if-Takes true one other rest f g = f
    if-Takes false one other rest f g = g

-- Whatever bytes come in, before the socket is closed, the worker's loop ends: with as many turns as
-- there are bytes, and one more, it never runs out of turns, and it leaves no more than it was given.
pub receive_ends :
    (segments : List SegmentConfig) (bytes : List ℕ)
    → (receive segments bytes ≢ err out_of_fuel)
      × ((loads : List Load) (rest : List ℕ)
          → receive segments bytes ≡ ok (loads, rest)
          → length rest ≤ length bytes)
unfolding receive Takes
receive_ends segments bytes = both (receive segments bytes) taken
  where
    taken : Takes 0 (length bytes) (receive segments bytes)
    taken = read_weights-Takes (suc (length bytes)) segments 0 bytes (omega arith)

    both :
        (step : Result WireError (List Load × List ℕ))
        → Takes 0 (length bytes) step
        → (step ≢ err out_of_fuel)
          × ((loads : List Load) (rest : List ℕ)
              → step ≡ ok (loads, rest)
              → length rest ≤ length bytes)
    both (err e) t = ((λ q. t (err-injective q)), λ loads rest q. cc)
    both (ok (loads, left)) t = ((λ q. cc), λ other rest q. ground arith)

-- A weight of `2 ^ 32` bytes or more: the buffer, whose size is kept in 32 bits, is too small for it,
-- and the bytes that follow the header go past its end.
pub large_weight_overflows :
    (temp : ℕ) (name : List ℕ) (op_index offset n_bytes : ℕ) (out : List ℕ)
    → temp < u32
    → op_index < u32
    → offset < u64
    → u32 ≤ n_bytes
    → n_bytes < u64
    → read_weight temp
        (suc (length name))
        (name ++ 0 ∷ write32 op_index (write64 offset (write64 n_bytes out)))
      ≡ err buffer_overflow
unfolding read_weight allocate
large_weight_overflows temp name op_index offset n_bytes out t i o n m =
    rw
      (
        read_bytes-text name _,
        read32-write32 op_index _ i,
        read64-write64 offset _ o,
        read64-write64 n_bytes _ m,
        small,
      )
      refl
  where
    small : ltb (allocate temp n_bytes) n_bytes ≡ true
    small = ground arith
