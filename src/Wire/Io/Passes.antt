-- ===== src/Wire/Io/Passes.antt =====
-- src/nn/nn-network.cpp, one pass of `NnNetwork::writeMany` and `NnNetwork::readMany` over the sockets.
use prefill_opt.Prelude.{
  ℕ, zero, suc, ◌+◌, ◌<◌, ◌≤◌, ◌≡◌, ◌⊎◌, refl, ap, ap₂, ◌∙◌, subst, Bool, true, false, ◌||◌, ok,
  List, [], ◌∷◌, ◌++◌, map, length, take, drop, take-append-drop, length-drop, arith, ltb,
  if◌then◌else◌, inl, inr, >>=-eq-ok, ok-inj,
}
use mathlib.Core.List.{append_assoc}
use prefill_opt.Wire.Codec.Laws.{All}
use prefill_opt.Wire.Io.{
  Answer, moved, again, failed, Io, advance, call, attempt, pass, next_answer, rest_of,
}

-- All bytes of a transfer, in order
abbrev pub whole : Io → List ℕ
whole io = io.done ++ io.left

abbrev pub IsDone : Io → Type 0
IsDone io = io.left ≡ []

abbrev pub total_left : List Io → ℕ
total_left [] = 0
total_left (io ∷ ios) = length io.left + total_left ios

whole-advance : (asked k : ℕ) (io : Io) → whole (advance asked k io) ≡ whole io
unfolding advance
whole-advance asked k io =
    let n = if ltb k asked then k else asked in
    append_assoc io.done (take n io.left) (drop n io.left)
    ∙ ap (λ r. io.done ++ r) (take-append-drop n io.left)

left-advance :
    (asked k : ℕ) (io : Io)
    → 0 < asked
    → 0 < length io.left
    → length (advance asked (suc k) io).left < length io.left
unfolding advance
left-advance asked k io a l =
    let n = if ltb (suc k) asked then suc k else asked in
    let some_bytes : 0 < n = ground arith in omega (arith, length-drop n io.left, some_bytes)

-- What a pass does to the sockets.
abbrev pub Passed : List Io → List Io × Bool × Bool → Type 0
Passed ios (ios', working, progress) =
    (map whole ios' ≡ map whole ios)
    × (total_left ios' ≤ total_left ios)
    × (progress ≡ true → total_left ios' < total_left ios)
    × (working ≡ false → All IsDone ios')

abbrev Attempted : Io → Io × Bool × Bool → Type 0
Attempted io (io', working, progress) =
    (whole io' ≡ whole io)
    × (length io'.left ≤ length io.left)
    × (progress ≡ true → length io'.left < length io.left)
    × (working ≡ false → IsDone io')

call-Attempted :
    (asked : ℕ) (io : Io) (answer : Answer) {next : Io × Bool × Bool}
    → 0 < asked
    → 0 < length io.left
    → call asked io answer ≡ ok next
    → Attempted io next
call-Attempted asked io (moved zero) a l e = cc
call-Attempted asked io (moved (suc k)) a l e = subst (Attempted io) (ok-inj e) (
  whole-advance asked (suc k) io,
  omega (arith, left-advance asked k io a l),
  (λ _. left-advance asked k io a l),
  λ never. cc,
)
call-Attempted asked io again a l e =
    subst (Attempted io) (ok-inj e) (refl, omega arith, (λ never. cc), λ never. cc)
call-Attempted asked io failed a l e = cc

attempt-Attempted :
    (ask : ℕ → ℕ) (done left : List ℕ) (answer : Answer) {next : Io × Bool × Bool}
    → ((n : ℕ) → 0 < n → 0 < ask n)
    → attempt ask (record { done = done; left = left }) answer ≡ ok next
    → Attempted (record { done = done; left = left }) next
unfolding attempt
attempt-Attempted ask done [] answer asks e =
    subst (Attempted (record { done = done; left = [] })) (ok-inj e)
      (refl, omega arith, (λ never. cc), λ _. refl)
attempt-Attempted ask done (b ∷ left) answer asks e =
    call-Attempted (ask (suc (length left))) (record { done = done; left = b ∷ left }) answer
      (asks (suc (length left)) (omega arith)) (omega arith) e

or-true : (a b : Bool) → (a || b) ≡ true → (a ≡ true) ⊎ (b ≡ true)
or-true true b h = inl refl
or-true false b h = inr h

or-false : (a b : Bool) → (a || b) ≡ false → (a ≡ false) × (b ≡ false)
or-false true b h = cc
or-false false b h = (refl, h)

Passed-cons :
    (io first : Io) (ios others : List Io) (working progress any_working any_progress : Bool)
    → Attempted io (first, working, progress)
    → Passed ios (others, any_working, any_progress)
    → Passed (io ∷ ios) (first ∷ others, working || any_working, progress || any_progress)
unfolding All
Passed-cons io first ios others working progress any_working any_progress (a, b, c, d)
      (e, f, g, h) =
    (
      ap₂ (λ x xs. x ∷ xs) a e,
      omega (arith, b, f),
      (λ some_moved. elim (or-true progress any_progress some_moved) [
        | inl here ↦ omega (arith, c here, f)
        | inr there ↦ omega (arith, b, g there)
      ]),
      λ none_works.
          let (here, there) = or-false working any_working none_works in (d here, h there),
    )

pub pass_lem :
    (ask : ℕ → ℕ) (ios : List Io) (answers : List Answer) {next : List Io × Bool × Bool}
    → ((n : ℕ) → 0 < n → 0 < ask n)
    → pass ask ios answers ≡ ok next
    → Passed ios next
unfolding pass All
pass_lem ask [] answers asks e =
    subst (Passed []) (ok-inj e) (refl, omega arith, (λ never. cc), λ _. tt)
pass_lem ask (io ∷ ios) answers asks e =
    let (one, e1, rest) = >>=-eq-ok (attempt ask io (next_answer answers)) _ e in
    let (others, e2, last) = >>=-eq-ok (pass ask ios (rest_of answers)) _ rest in
    subst (Passed (io ∷ ios)) (ok-inj last) (
      Passed-cons io one.0 ios others.0 one.1 one.2 others.1 others.2
        (attempt-Attempted ask io.done io.left (next_answer answers) asks e1)
        (pass_lem ask ios (rest_of answers) asks e2))
