-- ===== src/Tokenizer/Decode/Stream.antt =====
-- Well-formed text passes through the stream decoder unchanged, however it is cut into pieces.
use mathlib.Core.List.{append_assoc, append-nil}
use prefill_opt.Prelude.{
  ℕ, zero, suc, ◌+◌, ◌≤◌, ◌≡◌, ◌≢◌, refl, sym, ◌∙◌, ap, arith, List, [], ◌∷◌, ◌++◌, Option, none,
  some, length, length-append, true, false, ◌==◌, if◌then◌else◌,
}
use prefill_opt.Tokenizer.Decode.{
  Loop, copy, byte, bytes, fresh, is_continuation, expected, non_empty, detok_utf8,
}

-- The continuation bytes that are missing after a byte, where `missing` were before it; `none` if the
-- byte does not fit there. Zero ends a text.
abbrev pub after : ℕ → ℕ → Option ℕ
after zero c = if c == 0 then none else expected c
after (suc n) c = if is_continuation c then some n else none

-- Reading a text from the start of a character: the continuation bytes missing at its end.
abbrev pub missing : ℕ → List ℕ → Option ℕ
missing n [] = some n
missing n (c ∷ cs) = elim (after n c) [ none ↦ none | some m ↦ missing m cs ]

pub step :
    (n c : ℕ) (cs : List ℕ) (m : ℕ)
    → missing n (c ∷ cs) ≡ some m
    → (k : ℕ) × (after n c ≡ some k) × (missing k cs ≡ some m)
step n c cs m h = go (after n c) refl h
  where
    go :
        (o : Option ℕ)
        → after n c ≡ o
        → (elim o as (λ _. Option ℕ) [ none ↦ none | some k ↦ missing k cs ]) ≡ some m
        → (k : ℕ) × (after n c ≡ some k) × (missing k cs ≡ some m)
    go none e h = cc
    go (some k) e h = (k, e, h)

pub missing-step :
    (n c k : ℕ) (cs : List ℕ) → after n c ≡ some k → missing n (c ∷ cs) ≡ missing k cs
missing-step n c k cs e = rw (e, missing) refl

-- A text is read piece by piece.
pub missing-append :
    (n : ℕ) (xs ys : List ℕ) (m : ℕ) → missing n xs ≡ some m → missing n (xs ++ ys) ≡ missing m ys
missing-append n [] ys m h = let e : n ≡ m = cc in rw e refl
missing-append n (x ∷ xs) ys m h =
    let (k, a, r) = step n x xs m h in missing-step n x k (xs ++ ys) a ∙ missing-append k xs ys m r

pub missing-prefix :
    (n : ℕ) (xs ys : List ℕ) (m : ℕ)
    → missing n (xs ++ ys) ≡ some m
    → (k : ℕ) × (missing n xs ≡ some k)
missing-prefix n [] ys m h = (n, refl)
missing-prefix n (x ∷ xs) ys m h =
    let (k, a, r) = step n x (xs ++ ys) m h in
    let (j, p) = missing-prefix k xs ys m r in (j, missing-step n x k xs a ∙ p)

-- The loop with nothing replaced: what is done ends a character, and what is held is the beginning of
-- one.
pub record Good (l : Loop) : Type 0 where
  pub same : l.tail ≡ l.held
  pub whole : missing 0 l.done ≡ some 0
  pub part : missing 0 l.held ≡ some l.expect_continuation
  pub short : length l.held + l.expect_continuation ≤ 4
  pub none_held : l.expect_continuation ≡ 0 → l.held ≡ []

fresh-Good : Good fresh
fresh-Good = record {
  same = refl;
  whole = refl;
  part = refl;
  short = omega arith;
  none_held = λ _. refl;
}

copy-Good :
    (c n : ℕ) (l : Loop)
    → Good l
    → after l.expect_continuation c ≡ some n
    → length l.held + 1 + n ≤ 4
    → Good (copy c n l)
      × ((copy c n l).expect_continuation ≡ n)
      × ((copy c n l).done ++ (copy c n l).held ≡ l.done ++ (l.held ++ c ∷ []))
unfolding copy
copy-Good c zero l g e b =
    let w : missing 0 (l.held ++ c ∷ []) ≡ some 0 =
      missing-append 0 l.held (c ∷ []) l.expect_continuation g.part
      ∙ missing-step l.expect_continuation c 0 [] e in
    (
      record {
        same = refl;
        whole = rw (g.same) (missing-append 0 l.done (l.held ++ c ∷ []) 0 g.whole ∙ w);
        part = refl;
        short = omega arith;
        none_held = λ _. refl;
      },
      refl,
      rw (append-nil, g.same) refl,
    )
copy-Good c (suc n) l g e b = (
  record {
    same = rw (g.same) refl;
    whole = g.whole;
    part =
        missing-append 0 l.held (c ∷ []) l.expect_continuation g.part
        ∙ missing-step l.expect_continuation c (suc n) [] e;
    short = omega (arith, b, length-append l.held (c ∷ []));
    none_held = λ z. absurd (omega (arith, z));
  },
  refl,
  refl,
)

expected-le : (c n : ℕ) → expected c ≡ some n → n ≤ 3
expected-le c n h = ground (arith, h)

byte-Good :
    (c m : ℕ) (l : Loop)
    → Good l
    → after l.expect_continuation c ≡ some m
    → Good (byte l.expect_continuation c l)
      × ((byte l.expect_continuation c l).expect_continuation ≡ m)
      × ((byte l.expect_continuation c l).done ++ (byte l.expect_continuation c l).held
          ≡ l.done ++ (l.held ++ c ∷ []))
      × (c ≢ 0)
unfolding byte
byte-Good c m l g e = go l.expect_continuation refl
  where
    go :
        (n : ℕ)
        → l.expect_continuation ≡ n
        → Good (byte n c l)
          × ((byte n c l).expect_continuation ≡ m)
          × ((byte n c l).done ++ (byte n c l).held ≡ l.done ++ (l.held ++ c ∷ []))
          × (c ≢ 0)
    go zero q =
        let e' : after 0 c ≡ some m = rw q at e in
        let x : expected c ≡ some m = ground (arith, e') in
        let z : l.held ≡ [] = g.none_held q in
        let w = copy-Good c m l g e (omega (arith, ap length z, expected-le c m x)) in
        rw x (w.0, w.1, w.2, λ z. ground (arith, e', z))
    go (suc n) q =
        let e' : after (suc n) c ≡ some m = rw q at e in
        let t : is_continuation c ≡ true = ground (arith, e') in
        let k : n ≡ m = ground (arith, e', t) in
        let w = copy-Good c n l g (e ∙ ap some (sym k)) (omega (arith, g.short, q)) in
        rw t (w.0, w.1 ∙ k, w.2, λ z. ground (arith, t, z))

-- The loop gives out or keeps every byte of well-formed text.
bytes-Good :
    (cs : List ℕ) (m : ℕ) (l : Loop)
    → Good l
    → missing l.expect_continuation cs ≡ some m
    → Good (bytes cs l)
      × ((bytes cs l).expect_continuation ≡ m)
      × ((bytes cs l).done ++ (bytes cs l).held ≡ l.done ++ (l.held ++ cs))
unfolding bytes
bytes-Good [] m l g e = (g, (cc), rw append-nil refl)
bytes-Good (c ∷ cs) m l g e =
    let (k, a, r) = step l.expect_continuation c cs m e in
    let w = byte-Good c k l g a in
    let l' : Loop = byte l.expect_continuation c l in
    let z : (c == 0) ≡ false = ground (arith, w.3) in
    let r' : missing l'.expect_continuation cs ≡ some m = rw (w.1) r in
    let v = bytes-Good cs m l' (w.0) r' in
    rw z (
      v.0,
      v.1,
      v.2
          ∙ sym (append_assoc l'.done l'.held cs)
          ∙ ap (λ t. t ++ cs) (w.2)
          ∙ append_assoc l.done (l.held ++ c ∷ []) cs
          ∙ ap (λ t. l.done ++ t) (append_assoc l.held (c ∷ []) cs),
    )

abbrev pub out : Option (List ℕ) → List ℕ
out none = []
out (some t) = t

out-non_empty : (t : List ℕ) → out (non_empty t) ≡ t
out-non_empty [] = refl
out-non_empty (c ∷ cs) = refl

-- On a buffer that begins a well-formed text, `detokUtf8` gives out its whole characters and keeps
-- the rest, at most three bytes: nothing is lost, changed or reordered.
pub detok_lem :
    (buffer : List ℕ) (m : ℕ)
    → missing 0 buffer ≡ some m
    → (out (detok_utf8 buffer).0 ++ (detok_utf8 buffer).1 ≡ buffer)
      × (missing 0 (out (detok_utf8 buffer).0) ≡ some 0)
      × (missing 0 (detok_utf8 buffer).1 ≡ some m)
      × (length (detok_utf8 buffer).1 ≤ 3)
      × (m ≡ 0 → (detok_utf8 buffer).1 ≡ [])
unfolding detok_utf8
detok_lem buffer m h =
    let l : Loop = bytes buffer fresh in
    let v = bytes-Good buffer m fresh fresh-Good h in
    let g = v.0 in
    (
      rw (out-non_empty l.done) (v.2),
      rw (out-non_empty l.done) g.whole,
      g.part ∙ ap some (v.1),
      held_le l g,
      λ z. g.none_held (v.1 ∙ z),
    )
  where
    held_le : (l : Loop) → Good l → length l.held ≤ 3
    held_le l g = go l.expect_continuation refl
      where
        go : (n : ℕ) → l.expect_continuation ≡ n → length l.held ≤ 3
        go zero q = omega (arith, ap length (g.none_held q))
        go (suc n) q = omega (arith, g.short, q)
