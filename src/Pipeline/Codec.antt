-- ===== src/Pipeline/Codec.antt =====
-- src/nn/nn-pipeline.cpp, `encodeFromF32` and `decodeToF32`: which floats come out of those that go in.
use prefill_opt.Prelude.{
  ℕ, ◌*◌, ◌/◌, ◌%◌, ◌^◌, ◌<◌, ◌≤◌, ◌≡◌, ◌≢◌, refl, sym, ◌∙◌, List, [], ◌∷◌, map, length, length-map,
  arith, u32, ok, some, if◌then◌else◌, ◌==◌, Bool, true, false,
}
use prefill_opt.Core.{FloatType, f_unk, f_32, f_16, f_q40, f_q80}
use prefill_opt.Wire.Codec.Laws.{All}
use prefill_opt.Pipeline.{
  fits_blocks, in_memory, Floats, select_wire_dtype, encode_words, encode_from_f32, decode_to_f32,
}
use prefill_opt.Pipeline.Words.{AreBelow, length-in_memory, words_all, halves-in_memory}

-- What the conversions promise: how many bytes they fill, and how many floats.
pub record IsSized (fl : Floats) : Type 0 where
  pub plus-lt : (a b : ℕ) → fl.plus a b < u32
  pub minus-lt : (a b : ℕ) → fl.minus a b < u32
  pub f16-lt : (w : ℕ) → fl.f32_to_f16 w < 2 ^ 16
  pub f32-lt : (h : ℕ) → fl.f16_to_f32 h < u32
  pub length-q80 : (k : ℕ) (ws : List ℕ) → length ws ≡ k * 32 → length (fl.quantize_q80 ws) ≡ k * 34
  pub length-q40 : (k : ℕ) (ws : List ℕ) → length ws ≡ k * 32 → length (fl.quantize_q40 ws) ≡ k * 18
  pub length-of_q80 :
      (k : ℕ) (bytes : List ℕ) → length bytes ≡ k * 34 → length (fl.dequantize_q80 bytes) ≡ k * 32
  pub length-of_q40 :
      (k : ℕ) (bytes : List ℕ) → length bytes ≡ k * 18 → length (fl.dequantize_q40 bytes) ≡ k * 32
  pub of_q80-lt : (bytes : List ℕ) → AreBelow u32 (fl.dequantize_q80 bytes)
  pub of_q40-lt : (bytes : List ℕ) → AreBelow u32 (fl.dequantize_q40 bytes)

module _ (fl : Floats) where
  -- The payload for floats, and the floats that it stands for.
  unfoldable pub encoded : FloatType → List ℕ → List ℕ
  encoded f_16 xs = in_memory 2 (map fl.f32_to_f16 xs)
  encoded f_q80 xs = fl.quantize_q80 xs
  encoded f_q40 xs = fl.quantize_q40 xs
  encoded _ xs = in_memory 4 xs

  unfoldable pub carried : FloatType → List ℕ → List ℕ
  carried f_16 xs = map fl.f16_to_f32 (map fl.f32_to_f16 xs)
  carried f_q80 xs = fl.dequantize_q80 (fl.quantize_q80 xs)
  carried f_q40 xs = fl.dequantize_q40 (fl.quantize_q40 xs)
  carried _ xs = xs

-- The types that the wire can have for so many floats.
unfoldable pub CanCarry : FloatType → ℕ → Type 0
CanCarry f_unk n = ⊥
CanCarry f_32 n = Unit
CanCarry f_16 n = Unit
CanCarry f_q40 n = (k : ℕ) × (n ≡ k * 32)
CanCarry f_q80 n = (k : ℕ) × (n ≡ k * 32)

pub AreBelow-map :
    (f : ℕ → ℕ) {bound : ℕ} (xs : List ℕ) → ((x : ℕ) → f x < bound) → AreBelow bound (map f xs)
unfolding All
AreBelow-map f [] h = tt
AreBelow-map f (x ∷ xs) h = (h x, AreBelow-map f xs h)

fits→blocks : (n : ℕ) → fits_blocks (4 * n) ≡ true → n ≡ (n / 32) * 32
fits→blocks n h = ground arith

CanCarry-q40 :
    (fits : Bool) (n : ℕ)
    → (fits ≡ true → n ≡ (n / 32) * 32)
    → CanCarry (if fits then f_q40 else f_16) n
unfolding CanCarry
CanCarry-q40 true n h = (n / 32, h refl)
CanCarry-q40 false n h = tt

CanCarry-q80 :
    (fits : Bool) (n : ℕ)
    → (fits ≡ true → n ≡ (n / 32) * 32)
    → CanCarry (if fits then f_q80 else f_16) n
unfolding CanCarry
CanCarry-q80 true n h = (n / 32, h refl)
CanCarry-q80 false n h = tt

pub select-CanCarry :
    (dtype : FloatType) (n : ℕ) → dtype ≢ f_unk → CanCarry (select_wire_dtype dtype (4 * n)) n
unfolding select_wire_dtype CanCarry
select-CanCarry f_unk n h = absurd (h refl)
select-CanCarry f_32 n h = tt
select-CanCarry f_16 n h = tt
select-CanCarry f_q40 n h = CanCarry-q40 (fits_blocks (4 * n)) n (fits→blocks n)
select-CanCarry f_q80 n h = CanCarry-q80 (fits_blocks (4 * n)) n (fits→blocks n)

module _ (fl : Floats) (sized : IsSized fl) where
  whole : (xs : List ℕ) → (length (in_memory 4 xs) % 4 == 0) ≡ true
  whole xs = ground (arith, length-in_memory 4 xs)

  pub encode-encoded :
      (dtype : FloatType) (xs : List ℕ)
      → AreBelow u32 xs
      → CanCarry dtype (length xs)
      → encode_from_f32 fl (in_memory 4 xs) dtype ≡ ok (encoded fl dtype xs)
  unfolding encode_from_f32 encode_words encoded CanCarry
  encode-encoded f_unk xs h p = absurd p
  encode-encoded f_32 xs h p = refl
  encode-encoded f_16 xs h p = rw (whole xs, words_all xs h)
  encode-encoded f_q40 xs h p = rw (whole xs, words_all xs h)
  encode-encoded f_q80 xs h p = rw (whole xs, words_all xs h)

  pub length-carried :
      (dtype : FloatType) (xs : List ℕ)
      → CanCarry dtype (length xs)
      → length (carried fl dtype xs) ≡ length xs
  unfolding carried CanCarry
  length-carried f_unk xs p = refl
  length-carried f_32 xs p = refl
  length-carried f_16 xs p =
      length-map (map fl.f32_to_f16 xs) fl.f16_to_f32 ∙ length-map xs fl.f32_to_f16
  length-carried f_q40 xs (k, e) = sized.length-of_q40 k _ (sized.length-q40 k xs e) ∙ sym e
  length-carried f_q80 xs (k, e) = sized.length-of_q80 k _ (sized.length-q80 k xs e) ∙ sym e

  pub carried-AreBelow :
      (dtype : FloatType) (xs : List ℕ) → AreBelow u32 xs → AreBelow u32 (carried fl dtype xs)
  unfolding carried
  carried-AreBelow f_unk xs h = h
  carried-AreBelow f_32 xs h = h
  carried-AreBelow f_16 xs h = AreBelow-map fl.f16_to_f32 _ sized.f32-lt
  carried-AreBelow f_q40 xs h = sized.of_q40-lt _
  carried-AreBelow f_q80 xs h = sized.of_q80-lt _

  pub length-encoded :
      (dtype : FloatType) (xs : List ℕ)
      → CanCarry dtype (length xs)
      → (length xs ≤ 2 * length (encoded fl dtype xs))
        × (length (encoded fl dtype xs) ≤ 4 * length xs)
  unfolding encoded CanCarry
  length-encoded f_unk xs p = absurd p
  length-encoded f_32 xs p = omega (arith, length-in_memory 4 xs)
  length-encoded f_16 xs p =
      omega (arith, length-in_memory 2 (map fl.f32_to_f16 xs), length-map xs fl.f32_to_f16)
  length-encoded f_q40 xs (k, e) = omega (arith, e, sized.length-q40 k xs e)
  length-encoded f_q80 xs (k, e) = omega (arith, e, sized.length-q80 k xs e)

  pub decode-encoded :
      (dtype : FloatType) (xs : List ℕ) (n : ℕ)
      → CanCarry dtype (length xs)
      → n % 4 ≡ 0
      → 4 * length xs ≤ n
      → decode_to_f32 fl (encoded fl dtype xs) dtype n
        ≡ some (in_memory 4 (carried fl dtype xs), length xs)
  unfolding decode_to_f32 encoded carried CanCarry
  decode-encoded f_unk xs n p a l = absurd p
  decode-encoded f_32 xs n p a l = ground (arith, length-in_memory 4 xs)
  decode-encoded f_16 xs n p a l =
      rw (halves-in_memory (map fl.f32_to_f16 xs) (AreBelow-map fl.f32_to_f16 xs sized.f16-lt))
        (ground (arith, length-in_memory 2 (map fl.f32_to_f16 xs), length-map xs fl.f32_to_f16))
  decode-encoded f_q40 xs n (k, e) a l = ground (arith, e, sized.length-q40 k xs e)
  decode-encoded f_q80 xs n (k, e) a l = ground (arith, e, sized.length-q80 k xs e)
