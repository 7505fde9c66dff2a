-- ===== src/Tokenizer/Stops/Tests.antt =====
-- Runs of the detector for the stop word "<s>" with a padding of one byte on each side.
use prefill_opt.Prelude.{◌≡◌, ◌≢◌, refl, arith, [], ◌∷◌, none, some, c_string}
use prefill_opt.Tokenizer.Stops.{
  EosDetector, maybe_eos, not_eos, append, get_delta, reset, is_eos_token, check_pieces, check_from,
  check_at,
}
use prefill_opt.Tokenizer.Stops.Delta.{append_lem, stop_found, Told}

-- What a run computes with.
program : Unit {0}
unfolding append get_delta reset is_eos_token check_pieces check_from check_at c_string
program = tt

abbrev detector : EosDetector
detector = record {
  tokens = 7 ∷ [];
  pieces = (60 ∷ 115 ∷ 62 ∷ []) ∷ [];
  padding_left = 1;
  padding_right = 1;
  buffer = [];
  eos_pos = none;
}

waits : (append detector 0 (some (10 ∷ 60 ∷ []))).0 ≡ maybe_eos
unfolding program
waits = refl

stops :
    get_delta (append (append detector 0 (some (10 ∷ 60 ∷ []))).1 0 (some (115 ∷ 62 ∷ 10 ∷ []))).1
    ≡ some (10 ∷ [])
unfolding program
stops = refl

starts_again :
    (append (reset (append detector 0 (some (97 ∷ []))).1) 0 (some (98 ∷ []))).0 ≡ not_eos
unfolding program
starts_again = refl

append_lem_example :
    Told detector (10 ∷ 60 ∷ 115 ∷ 62 ∷ []) (append detector 0 (some (10 ∷ 60 ∷ 115 ∷ 62 ∷ [])))
unfolding is_eos_token
append_lem_example =
    append_lem detector 0 (some (10 ∷ 60 ∷ 115 ∷ 62 ∷ [])) refl
      (omega arith, (omega arith, (omega arith, (omega arith, tt))))

stop_found_example : (append detector 0 (some (10 ∷ 60 ∷ 115 ∷ 62 ∷ []))).0 ≢ not_eos
stop_found_example =
    stop_found detector 0 (some (10 ∷ 60 ∷ 115 ∷ 62 ∷ [])) 0 1 (60 ∷ 115 ∷ 62 ∷ []) refl
      (omega arith) (omega arith) ([], refl, omega arith)
