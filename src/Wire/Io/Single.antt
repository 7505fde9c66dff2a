-- ===== src/Wire/Io/Single.antt =====
-- src/nn/nn-network.cpp, `writeSocket` and `tryReadSocket`, whatever the system calls answer.
use prefill_opt.Prelude.{
  ℕ, zero, suc, ◌-◌, ◌<◌, ◌≤◌, ◌≡◌, ◌≢◌, refl, ap, sym, ◌∙◌, true, false, List, [], ◌∷◌, ◌++◌,
  length, take, drop, take-append-drop, length-drop, leb, arith, Bool-cases, inl, inr,
}
use mathlib.Core.List.{append_assoc, append-nil}
use prefill_opt.Wire.Io.{
  Answer, moved, again, failed, Ended, finished, gave_up, thrown, waiting, is_empty, is_stalled,
  count_attempt, Progress, write_socket_from, try_read_socket_from, write_socket, try_read_socket,
}

-- How a loop over `all` may end: with all bytes in order, or on the way, with none lost; it gives up
-- only with none moved.
abbrev pub Keeps : List ℕ → Ended Progress → Type 0
Keeps all (finished (done, left)) = (done ≡ all) × (left ≡ [])
Keeps all (gave_up (done, left)) = (done ≡ []) × (left ≡ all)
Keeps all (thrown failure) = Unit
Keeps all (waiting (done, left)) = (done ++ left ≡ all) × (left ≢ [])

regroup :
    (k : ℕ) (done left all : List ℕ)
    → done ++ left ≡ all
    → (done ++ take k left) ++ drop k left ≡ all
regroup k done left all e =
    append_assoc done (take k left) (drop k left)
    ∙ ap (λ r. done ++ r) (take-append-drop k left)
    ∙ e

write-Keeps :
    (timeout last : ℕ) (done left all : List ℕ) (answers : List (ℕ × Answer))
    → done ++ left ≡ all
    → Keeps all (write_socket_from timeout last done left answers)
unfolding write_socket_from
write-Keeps timeout last done [] all answers e = (sym (append-nil done) ∙ e, refl)
write-Keeps timeout last done (b ∷ left) all [] e = (e, cc)
write-Keeps timeout last done (b ∷ left) all ((now, moved zero) ∷ answers) e = tt
write-Keeps timeout last done (b ∷ left) all ((now, moved (suc k)) ∷ answers) e =
    write-Keeps timeout now (done ++ take (suc k) (b ∷ left)) (drop (suc k) (b ∷ left)) all answers
      (regroup (suc k) done (b ∷ left) all e)
write-Keeps timeout last done (b ∷ left) all ((now, again) ∷ answers) e =
    elim (Bool-cases (is_stalled timeout last now)) [
      | inl stalled ↦ rw stalled tt
      | inr not_yet ↦ rw not_yet (write-Keeps timeout last done (b ∷ left) all answers e)
    ]
write-Keeps timeout last done (b ∷ left) all ((now, failed) ∷ answers) e = tt

write_goes_on :
    (timeout last : ℕ) (done left : List ℕ) (answers : List (ℕ × Answer)) (given : Progress)
    → write_socket_from timeout last done left answers ≢ gave_up given
unfolding write_socket_from
write_goes_on timeout last done [] answers given e = cc
write_goes_on timeout last done (b ∷ left) [] given e = cc
write_goes_on timeout last done (b ∷ left) ((now, moved zero) ∷ answers) given e = cc
write_goes_on timeout last done (b ∷ left) ((now, moved (suc k)) ∷ answers) given e =
    write_goes_on timeout now (done ++ take (suc k) (b ∷ left)) (drop (suc k) (b ∷ left)) answers
      given e
write_goes_on timeout last done (b ∷ left) ((now, again) ∷ answers) given e =
    elim (Bool-cases (is_stalled timeout last now)) [
      | inl stalled ↦ let impossible = rw stalled at e in cc
      | inr not_yet ↦ write_goes_on timeout last done (b ∷ left) answers given (rw not_yet at e)
    ]
write_goes_on timeout last done (b ∷ left) ((now, failed) ∷ answers) given e = cc

count-empty :
    (done : List ℕ) (attempts : ℕ) → (count_attempt (is_empty done) attempts).1 ≡ true → done ≡ []
unfolding count_attempt
count-empty [] attempts over = refl
count-empty (b ∷ done) zero over = cc
count-empty (b ∷ done) (suc attempts) over = cc

try_read-Keeps :
    (timeout attempts last : ℕ) (done left all : List ℕ) (answers : List (ℕ × Answer))
    → done ++ left ≡ all
    → Keeps all (try_read_socket_from timeout attempts last done left answers)
unfolding try_read_socket_from
try_read-Keeps timeout attempts last done [] all answers e = (sym (append-nil done) ∙ e, refl)
try_read-Keeps timeout attempts last done (b ∷ left) all [] e = (e, cc)
try_read-Keeps timeout attempts last done (b ∷ left) all ((now, moved zero) ∷ answers) e = tt
try_read-Keeps timeout attempts last done (b ∷ left) all ((now, moved (suc k)) ∷ answers) e =
    try_read-Keeps timeout attempts now (done ++ take (suc k) (b ∷ left)) (drop (suc k) (b ∷ left))
      all answers (regroup (suc k) done (b ∷ left) all e)
try_read-Keeps timeout attempts last done (b ∷ left) all ((now, again) ∷ answers) e =
    let counted = count_attempt (is_empty done) attempts in
    elim (Bool-cases counted.1) [
      | inl over ↦
          let none : done ≡ [] = count-empty done attempts over in
          rw over (none, ap (λ d. d ++ b ∷ left) (sym none) ∙ e)
      | inr more ↦ rw more (elim (Bool-cases (is_stalled timeout last now)) [
        | inl stalled ↦ rw stalled tt
        | inr not_yet ↦
            rw not_yet (try_read-Keeps timeout counted.0 last done (b ∷ left) all answers e)
      ])
    ]
try_read-Keeps timeout attempts last done (b ∷ left) all ((now, failed) ∷ answers) e = tt

early : (timeout stall : ℕ) → stall < timeout → leb timeout stall ≡ false
early timeout stall h = ground arith

-- Answers that let a loop go on: the socket moves at least a byte, or it is too early to give up.
abbrev pub Serves : ℕ → ℕ → List (ℕ × Answer) → Type 0
Serves timeout last [] = Unit
Serves timeout last ((now, moved k) ∷ answers) = (0 < k) × Serves timeout now answers
Serves timeout last ((now, again) ∷ answers) = (now - last < timeout) × Serves timeout last answers
Serves timeout last ((now, failed) ∷ answers) = ⊥

abbrev pub moves : List (ℕ × Answer) → ℕ
moves [] = 0
moves ((now, moved k) ∷ answers) = suc (moves answers)
moves ((now, again) ∷ answers) = moves answers
moves ((now, failed) ∷ answers) = moves answers

write_from_ends :
    (timeout last : ℕ) (done left : List ℕ) (answers : List (ℕ × Answer))
    → Serves timeout last answers
    → length left ≤ moves answers
    → write_socket_from timeout last done left answers ≡ finished (done ++ left, [])
unfolding write_socket_from
write_from_ends timeout last done [] answers s l =
    ap (λ all. finished (all, [])) (sym (append-nil done))
write_from_ends timeout last done (b ∷ left) [] s l = absurd (omega arith)
write_from_ends timeout last done (b ∷ left) ((now, moved zero) ∷ answers) s l =
    absurd (omega arith)
write_from_ends timeout last done (b ∷ left) ((now, moved (suc k)) ∷ answers) s l =
    write_from_ends timeout now (done ++ take (suc k) (b ∷ left)) (drop (suc k) (b ∷ left)) answers
      s.1 (omega (arith, l, length-drop k left))
    ∙ ap (λ all. finished (all, [])) (regroup (suc k) done (b ∷ left) (done ++ b ∷ left) refl)
write_from_ends timeout last done (b ∷ left) ((now, again) ∷ answers) s l =
    rw (early timeout (now - last) s.0) (write_from_ends timeout last done (b ∷ left) answers s.1 l)
write_from_ends timeout last done (b ∷ left) ((now, failed) ∷ answers) s l = absurd s

-- Whatever `send` and `recv` answer: when `writeSocket` or `tryReadSocket` ends well, all bytes have moved,
-- in order; while it goes on, what has moved and what is left are all bytes; `writeSocket` does not give
-- up, and `tryReadSocket` gives up only before it has read a byte.
pub single_lem :
    (timeout max_attempts start : ℕ) (bytes : List ℕ) (answers : List (ℕ × Answer))
    → Keeps bytes (write_socket timeout start bytes answers)
      × Keeps bytes (try_read_socket timeout max_attempts start bytes answers)
      × ((given : Progress) → write_socket timeout start bytes answers ≢ gave_up given)
unfolding write_socket try_read_socket
single_lem timeout max_attempts start bytes answers = (
  write-Keeps timeout start [] bytes bytes answers refl,
  try_read-Keeps timeout max_attempts start [] bytes bytes answers refl,
  write_goes_on timeout start [] bytes answers,
)

-- `writeSocket` sends all bytes in order once the socket has taken some as often as there are bytes,
-- however many it takes at a time and however often it is not ready in between, if no call fails and it is
-- never not ready for as long as the timeout.
pub write_socket_ends :
    (timeout start : ℕ) (bytes : List ℕ) (answers : List (ℕ × Answer))
    → Serves timeout start answers
    → length bytes ≤ moves answers
    → write_socket timeout start bytes answers ≡ finished (bytes, [])
unfolding write_socket
write_socket_ends timeout start bytes answers = write_from_ends timeout start [] bytes answers
