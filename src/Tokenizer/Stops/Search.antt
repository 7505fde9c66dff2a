-- ===== src/Tokenizer/Stops/Search.antt =====
-- What the search for stop words finds.
use mathlib.Core.List.{append-nil}
use prefill_opt.Prelude.{
  ℕ, zero, suc, ◌+◌, ◌-◌, ◌≤◌, ◌<◌, ◌≡◌, ◌≢◌, refl, sym, ◌∙◌, ap, arith, true, false, ◌||◌, List,
  [], ◌∷◌, ◌++◌, some, ltb, leb, length, take, drop, Bool-cases, inl, inr, take_all, drop_all,
  length-take, min, get_elem?, ==_iff, ℕ_discrete, length-append, length-drop, starts_with,
}
use prefill_opt.Tokenizer.Encode.Scan.{starts_with-append}
use prefill_opt.Tokenizer.Stops.{
  Match, no_match, partial, whole, or_else, check_at, check_from, check_pieces,
}

-- The buffer ends, from `lo` on, in a stop word and at most `right` more bytes; or in the beginning of
-- one.
abbrev pub Ends : List ℕ → ℕ → List ℕ → ℕ → Type 0
Ends piece right buffer lo =
    (tail : List ℕ) × (drop lo buffer ≡ piece ++ tail) × (length tail ≤ right)

abbrev pub Begins : List ℕ → List ℕ → ℕ → Type 0
Begins piece buffer lo =
    (lo < length buffer)
    × (length buffer - lo < length piece)
    × (take (length buffer - lo) piece ≡ drop lo buffer)

-- A match says what it found in the buffer, for one stop word.
abbrev Meaning : List ℕ → ℕ → ℕ → List ℕ → Match → Type 0
Meaning piece left right buffer no_match = Unit
Meaning piece left right buffer partial = (lo : ℕ) × (lo ≤ left) × Begins piece buffer lo
Meaning piece left right buffer (whole lo) =
    (lo ≤ left) × (lo < length buffer) × Ends piece right buffer lo

whole_at :
    (piece : List ℕ) (left right : ℕ) (buffer : List ℕ) (lo : ℕ)
    → lo ≤ left
    → leb (length buffer) lo || ltb (length piece + right) (length buffer - lo) ≡ false
    → starts_with (take (length buffer - lo) piece) (drop lo buffer) ≡ true
    → leb (length piece) (length buffer - lo) ≡ true
    → Meaning piece left right buffer (whole lo)
whole_at piece left right buffer lo h k s w =
    let n : ℕ = length buffer - lo in
    let bounds : (lo < length buffer) × (n ≤ length piece + right) × (length piece ≤ n) =
      ground (arith, k, w) in
    let s' : starts_with piece (drop lo buffer) ≡ true = rw (take_all n piece bounds.2) at s in
    let l : length (drop (length piece) (drop lo buffer)) ≡ length (drop lo buffer) - length piece =
      length-drop (length piece) (drop lo buffer) in
    (
      h,
      bounds.0,
      (
        drop (length piece) (drop lo buffer),
        sym (starts_with-append piece (drop lo buffer) s'),
        omega (arith, l, length-drop lo buffer, bounds.1, bounds.2),
      ),
    )

partial_at :
    (piece : List ℕ) (left right : ℕ) (buffer : List ℕ) (lo : ℕ)
    → lo ≤ left
    → leb (length buffer) lo || ltb (length piece + right) (length buffer - lo) ≡ false
    → starts_with (take (length buffer - lo) piece) (drop lo buffer) ≡ true
    → leb (length piece) (length buffer - lo) ≡ false
    → Meaning piece left right buffer partial
partial_at piece left right buffer lo h k s w =
    let n : ℕ = length buffer - lo in
    let bounds : (lo < length buffer) × (n < length piece) = ground (arith, k, w) in
    let l : length (take n piece) ≡ min n (length piece) = length-take n piece in
    let r : drop (length (take n piece)) (drop lo buffer) ≡ [] =
      drop_all (length (take n piece)) (drop lo buffer)
        (omega (arith, l, length-drop lo buffer, bounds.1)) in
    let e : take n piece ++ [] ≡ drop lo buffer =
      rw r at (starts_with-append (take n piece) (drop lo buffer) s) in
    (lo, h, (bounds.0, bounds.1, sym (append-nil (take n piece)) ∙ e))

check_at-Meaning :
    (piece : List ℕ) (left right : ℕ) (buffer : List ℕ) (lo : ℕ)
    → lo ≤ left
    → Meaning piece left right buffer (check_at piece right buffer lo)
unfolding check_at
check_at-Meaning piece left right buffer lo h =
    let n : ℕ = length buffer - lo in
    elim (Bool-cases (leb (length buffer) lo || ltb (length piece + right) n)) [
      | inl y ↦ rw y tt
      | inr k ↦ elim (Bool-cases (starts_with (take n piece) (drop lo buffer))) [
        | inr z ↦ rw (k, z) tt
        | inl s ↦ elim (Bool-cases (leb (length piece) n)) [
          | inl w ↦ rw (k, s, w) (whole_at piece left right buffer lo h k s w)
          | inr w ↦ rw (k, s, w) (partial_at piece left right buffer lo h k s w)
        ]
      ]
    ]

or_else-Meaning :
    (piece : List ℕ) (left right : ℕ) (buffer : List ℕ) (m next : Match)
    → Meaning piece left right buffer m
    → Meaning piece left right buffer next
    → Meaning piece left right buffer (or_else m next)
or_else-Meaning piece left right buffer no_match next h k = k
or_else-Meaning piece left right buffer partial next h k = h
or_else-Meaning piece left right buffer (whole lo) next h k = h

check_from-Meaning :
    (piece : List ℕ) (left right : ℕ) (buffer : List ℕ) (lo rest : ℕ)
    → lo + rest ≤ left + 1
    → Meaning piece left right buffer (check_from piece right buffer lo rest)
unfolding check_from
check_from-Meaning piece left right buffer lo zero h = tt
check_from-Meaning piece left right buffer lo (suc rest) h =
    or_else-Meaning piece left right buffer (check_at piece right buffer lo)
      (check_from piece right buffer (lo + 1) rest)
      (check_at-Meaning piece left right buffer lo (omega arith))
      (check_from-Meaning piece left right buffer (lo + 1) rest (omega arith))

-- The same for all stop words: one of them was found.
abbrev pub Found : List (List ℕ) → ℕ → ℕ → List ℕ → Match → Type 0
Found pieces left right buffer no_match = Unit
Found pieces left right buffer partial =
    (s : ℕ) × (piece : List ℕ) × (lo : ℕ) × (get_elem? pieces s ≡ some piece)
    × (lo ≤ left)
    × Begins piece buffer lo
Found pieces left right buffer (whole lo) =
    (s : ℕ) × (piece : List ℕ) × (get_elem? pieces s ≡ some piece)
    × (lo ≤ left)
    × (lo < length buffer)
    × Ends piece right buffer lo

first-Found :
    (piece : List ℕ) (pieces : List (List ℕ)) (left right : ℕ) (buffer : List ℕ) (m next : Match)
    → Meaning piece left right buffer m
    → Found pieces left right buffer next
    → Found (piece ∷ pieces) left right buffer (or_else m next)
first-Found piece pieces left right buffer no_match no_match h f = tt
first-Found piece pieces left right buffer no_match partial h (s, p, lo, e, l, r) =
    (suc s, p, lo, e, l, r)
first-Found piece pieces left right buffer no_match (whole lo) h (s, p, e, k, l, r) =
    (suc s, p, e, k, l, r)
first-Found piece pieces left right buffer partial next (lo, h, b) f = (0, piece, lo, refl, h, b)
first-Found piece pieces left right buffer (whole lo) next (h, l, e) f = (0, piece, refl, h, l, e)

pub check_pieces-Found :
    (pieces : List (List ℕ)) (left right : ℕ) (buffer : List ℕ)
    → Found pieces left right buffer (check_pieces pieces left right buffer)
unfolding check_pieces
check_pieces-Found [] left right buffer = tt
check_pieces-Found (piece ∷ pieces) left right buffer =
    let rest = check_pieces-Found pieces left right buffer in
    elim (Bool-cases (ltb (length piece + left + right) (length buffer))) [
      | inl y ↦ rw y (
          first-Found piece pieces left right buffer no_match
            (check_pieces pieces left right buffer) tt rest)
      | inr n ↦ rw n (
          first-Found piece pieces left right buffer (check_from piece right buffer 0 (left + 1))
            (check_pieces pieces left right buffer)
            (check_from-Meaning piece left right buffer 0 (left + 1) (omega arith)) rest)
    ]

starts_with_self : (piece tail : List ℕ) → starts_with piece (piece ++ tail) ≡ true
starts_with_self [] tail = refl
starts_with_self (c ∷ cs) tail = rw ((==_iff c c).1 refl) (starts_with_self cs tail)

check_at-Ends :
    (piece : List ℕ) (right : ℕ) (buffer : List ℕ) (lo : ℕ)
    → 1 ≤ length piece
    → Ends piece right buffer lo
    → check_at piece right buffer lo ≡ whole lo
unfolding check_at
check_at-Ends piece right buffer lo p (tail, e, l) =
    let n : ℕ = length buffer - lo in
    let k : length buffer - lo ≡ length piece + length tail =
      sym (length-drop lo buffer) ∙ ap length e ∙ length-append piece tail in
    let s : starts_with (take n piece) (drop lo buffer) ≡ true =
      rw (take_all n piece (omega (arith, k)), e) (starts_with_self piece tail) in
    let a : leb (length buffer) lo || ltb (length piece + right) n ≡ false =
      ground (arith, k, l, p) in
    let b : leb (length piece) n ≡ true = ground (arith, k) in rw (a, s, b) refl

or_else-left : (m next : Match) → m ≢ no_match → or_else m next ≢ no_match
or_else-left no_match next h = λ e. h refl
or_else-left partial next h = h
or_else-left (whole lo) next h = h

or_else-right : (m next : Match) → next ≢ no_match → or_else m next ≢ no_match
or_else-right no_match next h = h
or_else-right partial next h = λ e. cc
or_else-right (whole lo) next h = λ e. cc

check_from-hit :
    (piece : List ℕ) (right : ℕ) (buffer : List ℕ) (at lo rest : ℕ)
    → 1 ≤ length piece
    → Ends piece right buffer lo
    → at ≤ lo
    → lo < at + rest
    → check_from piece right buffer at rest ≢ no_match
unfolding check_from
check_from-hit piece right buffer at lo zero p e h l = absurd (omega arith)
check_from-hit piece right buffer at lo (suc rest) p e h l = elim (ℕ_discrete at lo) [
  | yes q ↦
      or_else-left (check_at piece right buffer at) (check_from piece right buffer (at + 1) rest)
        (rw (q, check_at-Ends piece right buffer lo p e) (λ z. cc))
  | no q ↦
      or_else-right (check_at piece right buffer at) (check_from piece right buffer (at + 1) rest) (
        check_from-hit piece right buffer (at + 1) lo rest p e (omega (arith, q, h))
          (omega (arith, l)))
]

-- A stop word that the buffer ends in, within the paddings, is not missed.
pub check_pieces-hit :
    (pieces : List (List ℕ)) (left right : ℕ) (buffer : List ℕ) (s lo : ℕ) (piece : List ℕ)
    → get_elem? pieces s ≡ some piece
    → 1 ≤ length piece
    → lo ≤ left
    → Ends piece right buffer lo
    → check_pieces pieces left right buffer ≢ no_match
unfolding check_pieces
check_pieces-hit [] left right buffer s lo piece g p h e = cc
check_pieces-hit (x ∷ pieces) left right buffer zero lo piece g p h e =
    let q : x ≡ piece = cc in
    let (tail, d, l) = e in
    let k : length buffer - lo ≡ length piece + length tail =
      sym (length-drop lo buffer) ∙ ap length d ∙ length-append piece tail in
    let n : ltb (length piece + left + right) (length buffer) ≡ false = ground (arith, k, l, h) in
    rw (q, n)
      (or_else-left (check_from piece right buffer 0 (left + 1))
        (check_pieces pieces left right buffer)
        (check_from-hit piece right buffer 0 lo (left + 1) p e (omega arith) (omega (arith, h))))
check_pieces-hit (x ∷ pieces) left right buffer (suc s) lo piece g p h e =
    let r = check_pieces-hit pieces left right buffer s lo piece g p h e in
    elim (Bool-cases (ltb (length x + left + right) (length buffer))) [
      | inl y ↦ rw y r
      | inr n ↦ rw n (
          or_else-right (check_from x right buffer 0 (left + 1))
            (check_pieces pieces left right buffer) r)
    ]
