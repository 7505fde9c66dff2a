-- ===== src/Wire/Io/Tests.antt =====
-- Sockets that take a byte or two at a time, and are not ready in between.
use prefill_opt.Prelude.{ℕ, ◌≡◌, ◌≢◌, refl, arith, List, [], ◌∷◌, map, true, false}
use prefill_opt.Wire.Chunks.{chunk_size}
use prefill_opt.Wire.Io.{
  Answer, moved, again, timed_out, Progress, finished, gave_up, thrown, waiting, Io, count_attempt,
  write_socket_from, try_read_socket_from, write_socket, try_read_socket, advance, attempt, pass,
  write_many, read_many_from,
}
use prefill_opt.Wire.Io.Single.{Keeps, single_lem, write_socket_ends}
use prefill_opt.Wire.Io.Many.{KeepsAll, exchange_lem, exchange_ends}
use prefill_opt.Wire.Io.Passes.{whole}

abbrev slow : List (ℕ × Answer)
slow = (5, again) ∷ (7, moved 2) ∷ (16, again) ∷ (17, moved 9) ∷ (18, moved 1) ∷ []

write_socket_ends_example : write_socket 10 0 (1 ∷ 2 ∷ 3 ∷ []) slow ≡ finished (1 ∷ 2 ∷ 3 ∷ [], [])
write_socket_ends_example =
    write_socket_ends 10 0 (1 ∷ 2 ∷ 3 ∷ []) slow
      (omega arith, (omega arith, (omega arith, (omega arith, (omega arith, tt))))) (omega arith)

single_lem_example :
    Keeps (1 ∷ 2 ∷ 3 ∷ []) (write_socket 10 0 (1 ∷ 2 ∷ 3 ∷ []) slow)
    × Keeps (1 ∷ 2 ∷ 3 ∷ []) (try_read_socket 10 3 0 (1 ∷ 2 ∷ 3 ∷ []) slow)
    × ((given : Progress) → write_socket 10 0 (1 ∷ 2 ∷ 3 ∷ []) slow ≢ gave_up given)
single_lem_example = single_lem 10 3 0 (1 ∷ 2 ∷ 3 ∷ []) slow

too_late : write_socket 10 0 (1 ∷ 2 ∷ 3 ∷ []) ((5, moved 2) ∷ (15, again) ∷ []) ≡ thrown timed_out
unfolding write_socket write_socket_from
too_late = refl

two_attempts :
    try_read_socket 10 2 0 (1 ∷ 2 ∷ []) ((1, again) ∷ (2, again) ∷ []) ≡ gave_up ([], 1 ∷ 2 ∷ [])
unfolding try_read_socket try_read_socket_from count_attempt
two_attempts = refl

-- Once a byte is there the attempts do not count.
on_the_way :
    try_read_socket 10 2 0 (1 ∷ 2 ∷ []) ((1, again) ∷ (2, moved 1) ∷ (3, again) ∷ (4, again) ∷ [])
    ≡ waiting (1 ∷ [], 2 ∷ [])
unfolding try_read_socket try_read_socket_from count_attempt
on_the_way = refl

abbrev two_sockets : List Io
two_sockets = record { done = []; left = 1 ∷ 2 ∷ [] } ∷ record { done = []; left = 3 ∷ [] } ∷ []

abbrev in_turns : List (ℕ × List Answer)
in_turns =
    (1, moved 5 ∷ again ∷ [])
    ∷ (2, moved 5 ∷ moved 5 ∷ [])
    ∷ (3, again ∷ again ∷ [])
    ∷ (4, again ∷ again ∷ [])
    ∷ []

exchange_lem_example :
    KeepsAll two_sockets (write_many 1 10 0 two_sockets in_turns)
    × KeepsAll two_sockets (read_many_from 10 0 two_sockets in_turns)
exchange_lem_example = exchange_lem 1 10 0 two_sockets in_turns (omega arith)

abbrev first_done : List Io
first_done = record { done = 1 ∷ []; left = 2 ∷ [] } ∷ record { done = []; left = 3 ∷ [] } ∷ []

abbrev first_read : List Io
first_read = record { done = 1 ∷ 2 ∷ []; left = [] } ∷ record { done = []; left = 3 ∷ [] } ∷ []

abbrev both_done : List Io
both_done = record { done = 1 ∷ 2 ∷ []; left = [] } ∷ record { done = 3 ∷ []; left = [] } ∷ []

exchange_ends_example :
    ((ios' : List Io) × (write_many 1 10 0 two_sockets in_turns ≡ finished ios')
      × (map (λ io. io.done) ios' ≡ map whole two_sockets))
    × ((ios' : List Io) × (read_many_from 10 0 two_sockets in_turns ≡ finished ios')
        × (map (λ io. io.done) ios' ≡ map whole two_sockets))
unfolding pass attempt advance chunk_size
exchange_ends_example =
    exchange_ends 1 10 0 two_sockets in_turns in_turns (omega arith)
      (
        first_done,
        true,
        true,
        refl,
        (λ _. refl),
        (
          both_done,
          true,
          true,
          refl,
          (λ _. refl),
          (
            both_done,
            false,
            false,
            refl,
            (λ never. cc),
            (both_done, false, false, refl, (λ never. cc), tt),
          ),
        ),
      )
      (
        first_read,
        true,
        true,
        refl,
        (λ _. refl),
        (
          both_done,
          true,
          true,
          refl,
          (λ _. refl),
          (
            both_done,
            false,
            false,
            refl,
            (λ never. cc),
            (both_done, false, false, refl, (λ never. cc), tt),
          ),
        ),
      )
      (omega arith) (omega arith)
