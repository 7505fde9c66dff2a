-- ===== src/Control/Skip.antt =====
-- src/app.cpp, `WorkerLlmInference::evaluateStageSkipDecision` and the stages that take part. The
-- order of floats, 0, 1 and the division are parameters.
use Prim.Native.Nat.{bit_xor}
use prefill_opt.Prelude.{
  ◌⊎◌, ◌≢◌, ◌↔◌, ℕ, ◌/◌, ◌%◌, ◌^◌, ◌<◌, ◌≤◌, ◌≡◌, Bool, true, false, ◌&&◌, ◌||◌, not, ltb, leb,
  ◌==◌, if◌then◌else◌, add32, mul32, u32, arith,
}
use prefill_opt.Control.{Packet, SkipOptions}

-- `x ^= x >> shift`
unfoldable pub xor_shift : ℕ → ℕ → ℕ
xor_shift shift x = bit_xor x (x / 2 ^ shift)

-- The 24 bits of `deterministicStageSkipUnit`
unfoldable pub stage_skip_bits : ℕ → ℕ → ℕ
stage_skip_bits position target =
    let seed =
      bit_xor (bit_xor (mul32 position 2654435761) (mul32 target 2246822519)) 0x9e37_79b9 in
    let once = mul32 (xor_shift 16 seed) 0x7feb_352d in
    let twice = mul32 (xor_shift 15 once) 0x846c_a68b in xor_shift 16 twice % 2 ^ 24

unfoldable pub is_stage_skip_decision_stage : ℕ → ℕ → Bool
is_stage_skip_decision_stage pp_rank target =
    if target == 0 then false else add32 pp_rank 1 == target

unfoldable pub is_stage_skip_target_stage : ℕ → ℕ → Bool
is_stage_skip_target_stage pp_rank target = pp_rank == target

unfoldable pub is_stage_skip_post_target_stage : ℕ → ℕ → Bool
is_stage_skip_post_target_stage pp_rank target = pp_rank == add32 target 1

-- What the decision changes in the worker; `none_yet` is the score before any decision.
pub record SkipState (F : Type 0) : Type 0 where
  pub has_decision : Bool
  pub decision_score : F
  pub decision_accept : ℕ
  pub consecutive_accepts : ℕ
  pub reject_streak : ℕ
  pub forced_full : ℕ

-- What it reads: the node's stage, the phase, the batch size, and the last norm, if there is one.
pub record SkipInput (F : Type 0) : Type 0 where
  pub stage_rank : ℕ
  pub decoding : Bool
  pub batch : ℕ
  pub has_delta_norm : Bool
  pub delta_norm : F

module _ {F : Type 0} (le lt : F → F → Bool) (float_0 float_1 : F) (ratio : ℕ → ℕ → F) where
  -- The gate, before the streaks
  unfoldable pub passes_gate : SkipOptions F → ℕ → F → Bool
  passes_gate o position delta =
      let chance = lt (ratio (stage_skip_bits position o.skip_target) (2 ^ 24)) o.skip_alpha in
      le delta o.skip_theta
      && (if le o.skip_alpha float_0
          then false
          else if lt o.skip_alpha float_1
          then chance
          else true)

  -- The streaks, from the answer of the gate
  unfoldable pub decide : SkipOptions F → Bool → F → SkipState F → SkipState F
  decide o gate delta s =
      let forced = leb o.skip_max_reject_streak s.reject_streak in
      let accept = gate && ltb s.consecutive_accepts o.skip_max_consecutive && not forced in
      record {
        has_decision = true;
        decision_score = delta;
        decision_accept = if accept then 1 else 0;
        consecutive_accepts = if accept then add32 s.consecutive_accepts 1 else 0;
        reject_streak = if accept || forced then 0 else add32 s.reject_streak 1;
        forced_full = if forced then add32 s.forced_full 1 else s.forced_full;
      }

  unfoldable pub evaluate_stage_skip_decision : Packet F → SkipInput F → SkipState F → SkipState F
  evaluate_stage_skip_decision packet input s =
      let o = packet.skip in
      let undecided : SkipState F = record s {
        has_decision = false;
        decision_score = float_0;
        decision_accept = 0;
      } in
      let tracking = (o.skip_shadow == 1) || (o.skip_enabled == 1) in
      if not tracking || not (is_stage_skip_decision_stage input.stage_rank o.skip_target)
      then undecided
      else if not input.decoding || not (input.batch == 1)
      then undecided
      else if not input.has_delta_norm
      then undecided
      else decide o (passes_gate o packet.position input.delta_norm) input.delta_norm s

  -- The streaks stay within the bounds of the options.
  pub record InBounds (o : SkipOptions F) (s : SkipState F) : Type 0 where
    pub few_accepts : s.consecutive_accepts ≤ o.skip_max_consecutive
    pub few_rejects : s.reject_streak ≤ o.skip_max_reject_streak

  decide_lem :
      (o : SkipOptions F) (gate : Bool) (delta : F) (s : SkipState F)
      → o.skip_max_consecutive < u32
      → o.skip_max_reject_streak < u32
      → InBounds o s
      → InBounds o (decide o gate delta s)
  unfolding decide add32
  decide_lem o gate delta s a b h = record {
    few_accepts = ground (arith, h.few_accepts);
    few_rejects = ground (arith, h.few_rejects);
  }

  -- The number of the position and the target, in 24 bits, as a fraction of `2 ^ 24`
  abbrev pub chance_of : ℕ → ℕ → F
  chance_of position target = ratio (stage_skip_bits position target) (2 ^ 24)

  -- Everything that a token must meet to be skipped.
  pub record MaySkip (packet : Packet F) (input : SkipInput F) (s : SkipState F) : Type 0 where
    pub tracked : (packet.skip.skip_shadow ≡ 1) ⊎ (packet.skip.skip_enabled ≡ 1)
    pub has_target : packet.skip.skip_target ≢ 0
    pub before_target : add32 input.stage_rank 1 ≡ packet.skip.skip_target
    pub in_decode : input.decoding ≡ true
    pub one_token : input.batch ≡ 1
    pub has_norm : input.has_delta_norm ≡ true
    pub small_norm : le input.delta_norm packet.skip.skip_theta ≡ true
    pub positive_rate : le packet.skip.skip_alpha float_0 ≡ false
    pub lucky :
        lt packet.skip.skip_alpha float_1 ≡ true
        → lt (chance_of packet.position packet.skip.skip_target) packet.skip.skip_alpha ≡ true
    pub few_skips : s.consecutive_accepts < packet.skip.skip_max_consecutive
    pub not_forced : s.reject_streak < packet.skip.skip_max_reject_streak

  skips-MaySkip :
      (packet : Packet F) (input : SkipInput F) (s : SkipState F)
      → (evaluate_stage_skip_decision packet input s).decision_accept ≡ 1
      → MaySkip packet input s
  unfolding evaluate_stage_skip_decision is_stage_skip_decision_stage passes_gate decide
  skips-MaySkip packet input s e = record {
    tracked = ground (arith, e);
    has_target = ground (arith, e);
    before_target = ground (arith, e);
    in_decode = ground (arith, e);
    one_token = ground (arith, e);
    has_norm = ground (arith, e);
    small_norm = ground (arith, e);
    positive_rate = ground (arith, e);
    lucky = λ h. ground (arith, e, h);
    few_skips = ground (arith, e);
    not_forced = ground (arith, e);
  }

  MaySkip-skips :
      (packet : Packet F) (input : SkipInput F) (s : SkipState F)
      → MaySkip packet input s
      → (evaluate_stage_skip_decision packet input s).decision_accept ≡ 1
  unfolding evaluate_stage_skip_decision is_stage_skip_decision_stage passes_gate decide
  MaySkip-skips packet input s m = ground (
    arith, m.tracked, m.has_target, m.before_target, m.in_decode, m.one_token, m.has_norm,
    m.small_norm, m.positive_rate, m.lucky, m.few_skips, m.not_forced,
  )

  -- A decision, whatever it reads, keeps the streak of skipped tokens and the streak of full ones within
  -- the bounds of the packet, which must have 32 bits. It skips exactly when the skipping is tracked or
  -- enabled, in a decode of one token, on the stage before a target that is not 0, with a norm, which is
  -- at most the threshold, with a positive rate, below which the position's number lies if the rate is
  -- less than one, after fewer skips in a row than the bound, and with a streak of full tokens below its
  -- bound.
  pub skip_lem :
      (packet : Packet F) (input : SkipInput F) (s : SkipState F)
      → packet.skip.skip_max_consecutive < u32
      → packet.skip.skip_max_reject_streak < u32
      → InBounds packet.skip s
      → InBounds packet.skip (evaluate_stage_skip_decision packet input s)
        × (((evaluate_stage_skip_decision packet input s).decision_accept ≡ 1)
            ↔ MaySkip packet input s)
  unfolding evaluate_stage_skip_decision is_stage_skip_decision_stage passes_gate decide add32
  skip_lem packet input s a b h =
      (kept, (skips-MaySkip packet input s, MaySkip-skips packet input s))
    where
      kept : InBounds packet.skip (evaluate_stage_skip_decision packet input s)
      kept = record {
        few_accepts = ground (arith, h.few_accepts, a);
        few_rejects = ground (arith, h.few_rejects, b);
      }
