-- ===== src/Wire/Io/Many.antt =====
-- src/nn/nn-network.cpp, `NnNetwork::writeMany` and `NnNetwork::readMany`, whatever the system calls
-- answer.
use prefill_opt.Prelude.{
  ℕ, ◌<◌, ◌≡◌, refl, ap, ap₂, sym, ◌∙◌, subst, Bool, true, false, Result, ok, err, List, [], ◌∷◌,
  ◌++◌, map, length, arith, Bool-cases, inl, inr,
}
use mathlib.Core.Bool.{false≢true}
use mathlib.Core.List.{append-nil}
use prefill_opt.Wire.Codec.Laws.{All}
use prefill_opt.Wire.Chunks.{chunk_size}
use prefill_opt.Wire.Io.{
  Answer, IoError, Ended, finished, gave_up, thrown, waiting, is_stalled, Io, pass, after_pass,
  many_from, write_many, read_many_from,
}
use prefill_opt.Wire.Io.Passes.{whole, IsDone, total_left, Passed, pass_lem}

-- How a loop over transfers may end: with all done and all bytes in order, or on the way, with none
-- lost.
abbrev pub KeepsAll : List Io → Ended (List Io) → Type 0
KeepsAll ios (finished ios') = (map whole ios' ≡ map whole ios) × All IsDone ios'
KeepsAll ios (gave_up ios') = ⊥
KeepsAll ios (thrown failure) = Unit
KeepsAll ios (waiting ios') = map whole ios' ≡ map whole ios

after_pass-KeepsAll :
    (timeout last now : ℕ) (start ios : List Io) (result : Result IoError (List Io × Bool × Bool))
    (next : ℕ → List Io → Ended (List Io))
    → ((passed : List Io × Bool × Bool) → result ≡ ok passed → Passed ios passed)
    → map whole ios ≡ map whole start
    → ((time : ℕ) (ios' : List Io)
        → map whole ios' ≡ map whole start
        → KeepsAll start (next time ios'))
    → KeepsAll start (after_pass timeout last now result next)
after_pass-KeepsAll timeout last now start ios (err failure) next passed e rest = tt
after_pass-KeepsAll timeout last now start ios (ok (ios', false, progress)) next passed e rest =
    let p = passed (ios', false, progress) refl in (p.0 ∙ e, p.3 refl)
after_pass-KeepsAll timeout last now start ios (ok (ios', true, true)) next passed e rest =
    rest now ios' ((passed (ios', true, true) refl).0 ∙ e)
after_pass-KeepsAll timeout last now start ios (ok (ios', true, false)) next passed e rest =
    elim (Bool-cases (is_stalled timeout last now)) [
      | inl stalled ↦ rw stalled tt
      | inr not_yet ↦ rw not_yet (rest last ios' ((passed (ios', true, false) refl).0 ∙ e))
    ]

many_lem :
    (ask : ℕ → ℕ) (timeout last : ℕ) (start ios : List Io) (passes : List (ℕ × List Answer))
    → ((n : ℕ) → 0 < n → 0 < ask n)
    → map whole ios ≡ map whole start
    → KeepsAll start (many_from ask timeout last ios passes)
unfolding many_from
many_lem ask timeout last start ios [] asks e = e
many_lem ask timeout last start ios ((now, answers) ∷ passes) asks e =
    after_pass-KeepsAll timeout last now start ios (pass ask ios answers)
      (λ time ios'. many_from ask timeout time ios' passes)
      (λ passed ok_pass. pass_lem ask ios answers asks ok_pass) e
      (λ time ios' kept. many_lem ask timeout time start ios' passes asks kept)

chunk_size-pos : (io : ℕ) → 0 < io → (n : ℕ) → 0 < n → 0 < chunk_size io n
unfolding chunk_size
chunk_size-pos io p n q = ground arith

-- Whatever the system calls answer, `writeMany` and `readMany` keep the bytes of every socket in order and
-- lose none: when they return, all bytes of every socket have moved, and while they go on, what has moved
-- and what is left are all bytes. The size of a chunk must be positive.
pub exchange_lem :
    (io_chunk timeout last : ℕ) (ios : List Io) (passes : List (ℕ × List Answer))
    → 0 < io_chunk
    → KeepsAll ios (write_many io_chunk timeout last ios passes)
      × KeepsAll ios (read_many_from timeout last ios passes)
unfolding write_many read_many_from
exchange_lem io_chunk timeout last ios passes p = (
  many_lem (chunk_size io_chunk) timeout last ios ios passes (chunk_size-pos io_chunk p) refl,
  many_lem (λ left. left) timeout last ios ios passes (λ n q. q) refl,
)

-- No call fails, and in every pass that is not the last some socket moves.
abbrev pub IsServed : (ℕ → ℕ) → List Io → List (ℕ × List Answer) → Type 0
IsServed ask ios [] = Unit
IsServed ask ios ((now, answers) ∷ passes) =
    (ios' : List Io) × (working : Bool) × (progress : Bool) × (pass ask ios answers
      ≡ ok (ios', working, progress))
    × (working ≡ true → progress ≡ true)
    × IsServed ask ios' passes

many_ends :
    (ask : ℕ → ℕ) (timeout last : ℕ) (ios : List Io) (passes : List (ℕ × List Answer))
    → ((n : ℕ) → 0 < n → 0 < ask n)
    → IsServed ask ios passes
    → total_left ios < length passes
    → (ios' : List Io) × (many_from ask timeout last ios passes ≡ finished ios')
unfolding many_from
many_ends ask timeout last ios [] asks served l = absurd (omega arith)
many_ends ask timeout last ios ((now, answers) ∷ passes) asks (ios', false, p, e, moves, served) l =
    (ios', rw e refl)
many_ends ask timeout last ios ((now, answers) ∷ passes) asks (ios', true, false, e, moves, served)
      l =
    absurd (false≢true (moves refl))
many_ends ask timeout last ios ((now, answers) ∷ passes) asks (ios', true, true, e, moves, served)
      l =
    let (done, rest) =
      many_ends ask timeout now ios' passes asks served
        (omega (arith, (pass_lem ask ios answers asks e).2 refl)) in
    (done, rw e rest)

done-eq-whole : (ios : List Io) → All IsDone ios → map (λ io. io.done) ios ≡ map whole ios
unfolding All
done-eq-whole [] h = refl
done-eq-whole (io ∷ ios) (e, h) =
    ap₂ (λ x xs. x ∷ xs) (sym (append-nil io.done) ∙ ap (λ r. io.done ++ r) (sym e))
      (done-eq-whole ios h)

ends_whole :
    (ask : ℕ → ℕ) (timeout last : ℕ) (ios : List Io) (passes : List (ℕ × List Answer))
    → ((n : ℕ) → 0 < n → 0 < ask n)
    → IsServed ask ios passes
    → total_left ios < length passes
    → (ios' : List Io) × (many_from ask timeout last ios passes ≡ finished ios')
      × (map (λ io. io.done) ios' ≡ map whole ios)
ends_whole ask timeout last ios passes asks served l =
    let (ios', e) = many_ends ask timeout last ios passes asks served l in
    let kept : KeepsAll ios (finished ios') =
      subst (KeepsAll ios) e (many_lem ask timeout last ios ios passes asks refl) in
    (ios', e, done-eq-whole ios' kept.1 ∙ kept.0)

-- While no call fails and some socket moves in every pass that finds bytes left, `writeMany` and
-- `readMany` return: one pass more than there are bytes is enough. Then every socket has all its bytes in
-- order. The size of a chunk must be positive.
pub exchange_ends :
    (io_chunk timeout last : ℕ) (ios : List Io) (writes reads : List (ℕ × List Answer))
    → 0 < io_chunk
    → IsServed (chunk_size io_chunk) ios writes
    → IsServed (λ left. left) ios reads
    → total_left ios < length writes
    → total_left ios < length reads
    → ((ios' : List Io) × (write_many io_chunk timeout last ios writes ≡ finished ios')
        × (map (λ io. io.done) ios' ≡ map whole ios))
      × ((ios' : List Io) × (read_many_from timeout last ios reads ≡ finished ios')
          × (map (λ io. io.done) ios' ≡ map whole ios))
unfolding write_many read_many_from
exchange_ends io_chunk timeout last ios writes reads p w r l k = (
  ends_whole (chunk_size io_chunk) timeout last ios writes (chunk_size-pos io_chunk p) w l,
  ends_whole (λ left. left) timeout last ios reads (λ n q. q) r k,
)
