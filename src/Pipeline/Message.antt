-- ===== src/Pipeline/Message.antt =====
-- src/nn/nn-pipeline.cpp, what `sendActivation` and `recvActivation` mean for the floats of the two
-- stages, and the lemmas on the sender.
use prefill_opt.Prelude.{
  ℕ, zero, suc, ◌*◌, ◌<◌, ◌≡◌, ◌≢◌, refl, ap, sym, subst, Bool, true, false, not, ◌&&◌, List, [],
  ◌∷◌, length, get_or, get_elem?, get_elem?-lt, arith, u32, u64, ok, Result, some, ltb, leb, ◌==◌,
  if◌then◌else◌,
}
use prefill_opt.Core.{FloatType, f_unk}
use prefill_opt.Wire.Codec.Laws.{All}
use prefill_opt.Wire.Codec.{Writer, le_bytes}
use prefill_opt.Pipeline.{in_memory, Floats, PipelineError, select_wire_dtype}
use prefill_opt.Pipeline.Words.{AreBelow, length-in_memory, words_all}
use prefill_opt.Pipeline.Codec.{IsSized, carried, encoded, encode-encoded, CanCarry}
use prefill_opt.Pipeline.Bytes.{IsExtra}
use prefill_opt.Pipeline.Communicator.{
  Communicator, use_delta, source_bytes, zip_with, is_empty, wire_payload, send_activation,
}

-- The arguments of `sendActivation` on one link.
pub record Message : Type 0 where
  pub seq_position : ℕ
  pub batch_index : ℕ
  pub slice_id : ℕ
  pub floats : List ℕ
  pub dtype : FloatType
  pub extra_flags : ℕ

pub record IsMessage (m : Message) : Type 0 where
  pub seq_position : m.seq_position < u32
  pub batch_index : m.batch_index < u32
  pub slice_id : m.slice_id < u32
  pub are_words : AreBelow u32 m.floats
  pub fits : 4 * length m.floats < u64
  pub has_type : m.dtype ≢ f_unk
  pub extra : IsExtra m.extra_flags

abbrev pub wire_type : Message → FloatType
wire_type m = select_wire_dtype m.dtype (4 * length m.floats)

unfoldable pub send :
    Floats → ℕ → ℕ → Communicator → Message → Result PipelineError (Communicator × ℕ × Writer)
send fl io target c m =
    send_activation fl io c target m.seq_position m.batch_index m.slice_id (in_memory 4 m.floats)
      m.dtype m.extra_flags

-- Whether a change is sent, if `sent` went before.
abbrev pub wants_delta : Communicator → List ℕ → List ℕ → Bool
wants_delta c floats sent =
    not (is_empty floats)
    && (c.delta_enabled
        && (leb c.delta_min_bytes (4 * length floats) && (length sent == length floats)))

module _ (fl : Floats) where
  abbrev pub source : Bool → List ℕ → List ℕ → List ℕ
  source delta floats sent = if delta then zip_with fl.minus floats sent else floats

  -- What the receiver has, if it held `held`.
  abbrev pub arriving : Bool → FloatType → List ℕ → List ℕ → List ℕ → List ℕ
  arriving delta dtype floats sent held =
      if delta
      then zip_with fl.plus held (carried fl dtype (zip_with fl.minus floats sent))
      else carried fl dtype floats

-- The payload of a message.
abbrev pub sent_payload : Floats → Communicator → List ℕ → List ℕ → FloatType → List ℕ
sent_payload fl c sent floats wire =
    if is_empty floats
    then []
    else encoded fl wire (source fl (wants_delta c floats sent) floats sent)

pub length-zip_with :
    (f : ℕ → ℕ → ℕ) (xs ys : List ℕ) → length xs ≡ length ys → length (zip_with f xs ys) ≡ length xs
unfolding zip_with
length-zip_with f [] ys h = refl
length-zip_with f (x ∷ xs) [] h = absurd (omega (arith, h))
length-zip_with f (x ∷ xs) (y ∷ ys) h = ap suc (length-zip_with f xs ys (omega (arith, h)))

pub AreBelow-zip_with :
    (f : ℕ → ℕ → ℕ) {bound : ℕ} (xs ys : List ℕ)
    → ((x y : ℕ) → f x y < bound)
    → AreBelow bound (zip_with f xs ys)
unfolding zip_with All
AreBelow-zip_with f [] ys h = tt
AreBelow-zip_with f (x ∷ xs) [] h = tt
AreBelow-zip_with f (x ∷ xs) (y ∷ ys) h = (h x y, AreBelow-zip_with f xs ys h)

pub get_or-eq :
    (xs : List (List ℕ)) (i : ℕ) {ys : List ℕ} → get_elem? xs i ≡ some ys → get_or xs i [] ≡ ys
get_or-eq [] i h = cc
get_or-eq (x ∷ xs) zero h = cc
get_or-eq (x ∷ xs) (suc i) h = get_or-eq xs i h

pub in_table :
    (xs : List (List ℕ)) (i : ℕ) {ys : List ℕ} → get_elem? xs i ≡ some ys → ltb i (length xs) ≡ true
in_table xs i h = ground (arith, get_elem?-lt xs i h)

pub is_empty-in_memory : (xs : List ℕ) → is_empty (in_memory 4 xs) ≡ is_empty xs
unfolding in_memory le_bytes
is_empty-in_memory [] = refl
is_empty-in_memory (x ∷ xs) = refl

if_under {ℓ κ} :
    {A : Type ℓ} {B : Type κ} (f : A → B) (test : Bool) (x y : A)
    → (if test then f x else f y) ≡ f (if test then x else y)
if_under f true x y = refl
if_under f false x y = refl

module _ (fl : Floats) (sized : IsSized fl) (c : Communicator) (socket : ℕ) {sent : List ℕ}
    (known : get_elem? c.prev_send_by_socket socket ≡ some sent) (floats : List ℕ) where
  pub use_delta-eq : use_delta c socket (in_memory 4 floats) ≡ wants_delta c floats sent
  unfolding use_delta
  use_delta-eq =
      rw
        (
          is_empty-in_memory floats,
          length-in_memory 4 floats,
          in_table c.prev_send_by_socket socket known,
          get_or-eq c.prev_send_by_socket socket known,
        )
        (ground arith)

  pub source_bytes-eq :
      AreBelow u32 floats
      → source_bytes fl c socket (in_memory 4 floats)
        ≡ in_memory 4 (source fl (wants_delta c floats sent) floats sent)
  unfolding source_bytes
  source_bytes-eq h =
      rw (use_delta-eq, words_all floats h, get_or-eq c.prev_send_by_socket socket known)
        (if_under (in_memory 4) (wants_delta c floats sent) _ _)

  -- How long a payload is that stands for all floats, or the change.
  pub length-source : length (source fl (wants_delta c floats sent) floats sent) ≡ length floats
  length-source = by_delta (wants_delta c floats sent) (λ e. ground arith)
    where
      by_delta :
          (delta : Bool)
          → (delta ≡ true → length floats ≡ length sent)
          → length (source fl delta floats sent) ≡ length floats
      by_delta true same = length-zip_with fl.minus floats sent (same refl)
      by_delta false same = refl

  pub source-AreBelow :
      AreBelow u32 floats → AreBelow u32 (source fl (wants_delta c floats sent) floats sent)
  source-AreBelow h = by_delta (wants_delta c floats sent)
    where
      by_delta : (delta : Bool) → AreBelow u32 (source fl delta floats sent)
      by_delta true = AreBelow-zip_with fl.minus floats sent sized.minus-lt
      by_delta false = h

  pub wire_payload-eq :
      (wire : FloatType)
      → AreBelow u32 floats
      → CanCarry wire (length floats)
      → wire_payload fl c socket (in_memory 4 floats) wire ≡ ok (sent_payload fl c sent floats wire)
  unfolding wire_payload
  wire_payload-eq wire h can =
      let delta = wants_delta c floats sent in
      rw
        (
          is_empty-in_memory floats,
          source_bytes-eq h,
          encode-encoded fl sized wire (source fl delta floats sent) (source-AreBelow h)
              (subst (CanCarry wire) (sym length-source) can),
        )
        (if_under (λ p. ok p) (is_empty floats) _ _)
