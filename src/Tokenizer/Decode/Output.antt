-- ===== src/Tokenizer/Decode/Output.antt =====
-- What the stream decoder gives out is well-formed, whatever it is fed.
use prefill_opt.Prelude.{
  ℕ, zero, suc, ◌≡◌, ◌≢◌, refl, ◌∙◌, arith, List, [], ◌∷◌, ◌++◌, Option, none, some, ◌==◌,
  Bool-cases, inl, inr,
}
use prefill_opt.Tokenizer.Decode.{
  Loop, copy, first_byte, byte, bytes, fresh, is_continuation, expected, non_empty, detok_utf8,
}
use prefill_opt.Tokenizer.Decode.Stream.{after, missing, missing-step, missing-append, out}

-- What is written since the checkpoint is the beginning of a character, or one replacement.
record Sound (l : Loop) : Type 0 where
  whole : missing 0 l.done ≡ some 0
  part : missing 0 l.tail ≡ some l.expect_continuation

copy-Sound :
    (c n : ℕ) (l : Loop) → Sound l → after l.expect_continuation c ≡ some n → Sound (copy c n l)
unfolding copy
copy-Sound c zero l s e =
    let w : missing 0 (l.tail ++ c ∷ []) ≡ some 0 =
      missing-append 0 l.tail (c ∷ []) l.expect_continuation s.part
      ∙ missing-step l.expect_continuation c 0 [] e in
    record { whole = missing-append 0 l.done (l.tail ++ c ∷ []) 0 s.whole ∙ w; part = refl }
copy-Sound c (suc n) l s e = record {
  whole = s.whole;
  part =
      missing-append 0 l.tail (c ∷ []) l.expect_continuation s.part
      ∙ missing-step l.expect_continuation c (suc n) [] e;
}

first_byte-Sound :
    (c : ℕ) (l : Loop)
    → c ≢ 0
    → l.expect_continuation ≡ 0
    → Sound l
    → Sound (first_byte c (expected c) l)
unfolding first_byte
first_byte-Sound c l ne z s = go (expected c) refl
  where
    go : (o : Option ℕ) → expected c ≡ o → Sound (first_byte c o l)
    go none e = record { whole = s.whole; part = refl }
    go (some n) e =
        let a : after 0 c ≡ some n = ground (arith, ne, e) in copy-Sound c n l s (rw z a)

byte-Sound : (c : ℕ) (l : Loop) → c ≢ 0 → Sound l → Sound (byte l.expect_continuation c l)
unfolding byte
byte-Sound c l ne s = go l.expect_continuation refl
  where
    go : (n : ℕ) → l.expect_continuation ≡ n → Sound (byte n c l)
    go zero q = first_byte-Sound c l ne q s
    go (suc n) q = elim (Bool-cases (is_continuation c)) [
      | inl t ↦ let a : after (suc n) c ≡ some n = rw t refl in rw t (copy-Sound c n l s (rw q a))
      | inr t ↦ rw t (first_byte-Sound c _ ne refl (record { whole = s.whole; part = refl }))
    ]

bytes-Sound : (cs : List ℕ) (l : Loop) → Sound l → Sound (bytes cs l)
unfolding bytes
bytes-Sound [] l s = s
bytes-Sound (c ∷ cs) l s = elim (Bool-cases (c == 0)) [
  | inl t ↦ rw t s
  | inr t ↦ rw t (bytes-Sound cs _ (byte-Sound c l (ground (arith, t)) s))
]

-- Whatever bytes are in the buffer, `detokUtf8` gives out whole characters only.
pub detok-WellFormed : (buffer : List ℕ) → missing 0 (out (detok_utf8 buffer).0) ≡ some 0
unfolding detok_utf8
detok-WellFormed buffer = go (bytes buffer fresh) (bytes-Sound buffer fresh start)
  where
    start : Sound fresh
    start = record { whole = refl; part = refl }

    go : (l : Loop) → Sound l → missing 0 (out (non_empty l.done)) ≡ some 0
    go l s = shown l.done s.whole
      where
        shown : (d : List ℕ) → missing 0 d ≡ some 0 → missing 0 (out (non_empty d)) ≡ some 0
        shown [] h = h
        shown (c ∷ cs) h = h
