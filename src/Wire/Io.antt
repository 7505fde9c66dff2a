-- ===== src/Wire/Io.antt =====
-- src/nn/nn-network.cpp, the loops around `send` and `recv`: `writeSocket`, `tryReadSocket`,
-- `NnNetwork::writeMany` and `NnNetwork::readMany`. What the system calls answer, and the clock in
-- milliseconds, come from outside, as a list. The bytes that a read is to fill are those that come in
-- next. The counters and the messages on the console are left out.
pub mod Single
pub mod Passes
pub mod Many
mod Tests
use prefill_opt.Prelude.{
  ℕ, zero, suc, ◌+◌, ◌-◌, Bool, true, false, ◌||◌, Result, ok, err, List, [], ◌∷◌, ◌++◌, length,
  take, drop, ltb, leb, ◌==◌, if◌then◌else◌, ◌>>=◌,
}
use prefill_opt.Wire.Chunks.{chunk_size}

-- What `send` or `recv` finds: the socket takes or has so many bytes, of which no more move than are
-- asked for, and 0 means that it is closed; `EAGAIN`; or another error.
pub data Answer : Type 0 where
  moved : ℕ → Answer
  again : Answer
  failed : Answer

pub data IoError : Type 0 where
  socket_closed socket_failed timed_out : IoError

-- How a loop ends, and how far it is when the answers that are given run out.
pub data Ended {ℓ} (A : Type ℓ) : Type ℓ where
  finished : A → Ended A
  gave_up : A → Ended A
  thrown : IoError → Ended A
  waiting : A → Ended A

-- `(unsigned long)stallMs >= hardTimeoutMs`
abbrev pub is_stalled : ℕ → ℕ → ℕ → Bool
is_stalled timeout last_progress now = leb timeout (now - last_progress)

abbrev pub is_empty : List ℕ → Bool
is_empty [] = true
is_empty (b ∷ bytes) = false

-- `if (s == size && maxAttempts > 0)`: the attempts that are left, and whether that was the last.
unfoldable pub count_attempt : Bool → ℕ → ℕ × Bool
count_attempt untouched zero = (zero, false)
count_attempt false (suc attempts) = (suc attempts, false)
count_attempt true (suc attempts) = (attempts, attempts == 0)

-- The bytes that have moved, in front of those that are still to move.
abbrev pub Progress : Type 0
Progress = List ℕ × List ℕ

-- `writeSocket`, with the time of the last progress
unfoldable pub write_socket_from : ℕ → ℕ → List ℕ → List ℕ → List (ℕ × Answer) → Ended Progress
write_socket_from timeout last done [] answers = finished (done, [])
write_socket_from timeout last done (b ∷ left) [] = waiting (done, b ∷ left)
write_socket_from timeout last done (b ∷ left) ((now, moved zero) ∷ answers) = thrown socket_closed
write_socket_from timeout last done (b ∷ left) ((now, moved (suc k)) ∷ answers) =
    write_socket_from timeout now (done ++ take (suc k) (b ∷ left)) (drop (suc k) (b ∷ left))
      answers
write_socket_from timeout last done (b ∷ left) ((now, again) ∷ answers) =
    let rest = write_socket_from timeout last done (b ∷ left) answers in
    if is_stalled timeout last now then thrown timed_out else rest
write_socket_from timeout last done (b ∷ left) ((now, failed) ∷ answers) = thrown socket_failed

-- `tryReadSocket`; there is no bound on the attempts if it is 0.
unfoldable pub try_read_socket_from :
    ℕ → ℕ → ℕ → List ℕ → List ℕ → List (ℕ × Answer) → Ended Progress
try_read_socket_from timeout attempts last done [] answers = finished (done, [])
try_read_socket_from timeout attempts last done (b ∷ left) [] = waiting (done, b ∷ left)
try_read_socket_from timeout attempts last done (b ∷ left) ((now, moved zero) ∷ answers) =
    thrown socket_closed
try_read_socket_from timeout attempts last done (b ∷ left) ((now, moved (suc k)) ∷ answers) =
    try_read_socket_from timeout attempts now (done ++ take (suc k) (b ∷ left))
      (drop (suc k) (b ∷ left)) answers
try_read_socket_from timeout attempts last done (b ∷ left) ((now, again) ∷ answers) =
    let (more, over) = count_attempt (is_empty done) attempts in
    let rest = try_read_socket_from timeout more last done (b ∷ left) answers in
    if over
    then gave_up (done, b ∷ left)
    else if is_stalled timeout last now
    then thrown timed_out
    else rest
try_read_socket_from timeout attempts last done (b ∷ left) ((now, failed) ∷ answers) =
    thrown socket_failed

-- Both from their first call, with the time at which they start
unfoldable pub write_socket : ℕ → ℕ → List ℕ → List (ℕ × Answer) → Ended Progress
write_socket timeout start bytes answers = write_socket_from timeout start [] bytes answers

unfoldable pub try_read_socket : ℕ → ℕ → ℕ → List ℕ → List (ℕ × Answer) → Ended Progress
try_read_socket timeout max_attempts start bytes answers =
    try_read_socket_from timeout max_attempts start [] bytes answers

-- `NnSocketIo`: what is still to move, behind what has moved.
pub record Io : Type 0 where
  pub done : List ℕ
  pub left : List ℕ

-- `k` bytes move, if no fewer are asked for.
unfoldable pub advance : ℕ → ℕ → Io → Io
advance asked k io =
    let n = if ltb k asked then k else asked in
    record { done = io.done ++ take n io.left; left = drop n io.left }

-- One socket in a pass: what becomes of it, whether it still had bytes to move, and whether any moved.
abbrev pub call : ℕ → Io → Answer → Result IoError (Io × Bool × Bool)
call asked io (moved zero) = err socket_closed
call asked io (moved (suc k)) = ok (advance asked (suc k) io, true, true)
call asked io again = ok (io, true, false)
call asked io failed = err socket_failed

abbrev next_answer : List Answer → Answer
next_answer [] = again
next_answer (answer ∷ answers) = answer

abbrev rest_of : List Answer → List Answer
rest_of [] = []
rest_of (answer ∷ answers) = answers

-- After a pass the loop is over, goes on with the time of the last progress, or throws.
abbrev pub after_pass :
    ℕ
    → ℕ
    → ℕ
    → Result IoError (List Io × Bool × Bool)
    → (ℕ → List Io → Ended (List Io))
    → Ended (List Io)
after_pass timeout last now (err failure) next = thrown failure
after_pass timeout last now (ok (ios, false, progress)) next = finished ios
after_pass timeout last now (ok (ios, true, true)) next = next now ios
after_pass timeout last now (ok (ios, true, false)) next =
    if is_stalled timeout last now then thrown timed_out else next last ios

-- How many bytes a call asks for depends on those that are left.
module _ (ask : ℕ → ℕ) where
  -- Where the bytes of a socket are done, it is not called.
  unfoldable pub attempt : Io → Answer → Result IoError (Io × Bool × Bool)
  attempt io answer =
      if is_empty io.left then ok (io, false, false) else call (ask (length io.left)) io answer

  -- A pass over the sockets, with an answer for each.
  unfoldable pub pass : List Io → List Answer → Result IoError (List Io × Bool × Bool)
  pass [] answers = ok ([], false, false)
  pass (io ∷ ios) answers = do
    (first, working, progress) ← attempt io (next_answer answers)
    (others, any_working, any_progress) ← pass ios (rest_of answers)
    ok (first ∷ others, working || any_working, progress || any_progress)

  unfoldable pub many_from : ℕ → ℕ → List Io → List (ℕ × List Answer) → Ended (List Io)
  many_from timeout last ios [] = waiting ios
  many_from timeout last ios ((now, answers) ∷ passes) =
      after_pass timeout last now (pass ios answers)
        (λ progress ios'. many_from timeout progress ios' passes)

-- `writeMany` asks for a chunk, and `readMany` for all that is left.
unfoldable pub write_many : ℕ → ℕ → ℕ → List Io → List (ℕ × List Answer) → Ended (List Io)
write_many io_chunk timeout last ios passes =
    many_from (chunk_size io_chunk) timeout last ios passes

unfoldable pub read_many_from : ℕ → ℕ → List Io → List (ℕ × List Answer) → Ended (List Io)
read_many_from timeout last ios passes = many_from (λ left. left) timeout last ios passes
