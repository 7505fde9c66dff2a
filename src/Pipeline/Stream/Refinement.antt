-- ===== src/Pipeline/Stream/Refinement.antt =====
-- src/nn/nn-pipeline.cpp: any sequence of activations on a link.
use prefill_opt.Prelude.{ℕ, ◌<◌, ◌≡◌, refl, List, [], ◌∷◌, map, ok, some}
use prefill_opt.Wire.Codec.{Writer}
use prefill_opt.Wire.Codec.Laws.{All}
use prefill_opt.Pipeline.{Floats}
use prefill_opt.Pipeline.Codec.{IsSized}
use prefill_opt.Pipeline.Communicator.{Communicator}
use prefill_opt.Pipeline.Stream.{Transfer, send_all, receive_all, deliver, IsTransfer, IsLink}
use prefill_opt.Pipeline.Stream.Ends.{step-IsLink, first, sent_step, received_step}

module _ (fl : Floats) (sized : IsSized fl) where
  -- Any sequence of activations, with any options for each: the sender's calls succeed, and the receiver,
  -- which reads the bytes of all of them, gets each in order, with its position, batch, slice and mark,
  -- without a warning, and has in its buffer what the link delivers; no more bytes are taken.
  pub stream_lem :
      (to from io_to io_from : ℕ) (ts : List Transfer) (c r : Communicator) (sent held : List ℕ)
      → 0 < io_to
      → 0 < io_from
      → IsLink to from c r sent held
      → All IsTransfer ts
      → (last : Communicator) × (write : Writer) × (send_all fl io_to to c ts ≡ ok (last, write))
        × ((out : List ℕ)
            → (r' : Communicator) × (receive_all fl io_from from r
                  (map (λ t. t.buffer) ts)
                  (write out)
                ≡ some (deliver fl ts sent held, r', out)))
  unfolding send_all receive_all deliver All
  stream_lem to from io_to io_from [] c r sent held p q l h =
      (c, (λ out. out), refl, λ out. (r, refl))
  stream_lem to from io_to io_from (t ∷ ts) c r sent held p q l (v, h) =
      let (last, write, done, read) =
        stream_lem to from io_to io_from ts _ _ _ _ p q
          (step-IsLink fl sized to from c r t sent held v l) h in
      (
        last,
        (λ out. first fl sized to from c r t sent held v l io_to (write out)),
        rw (sent_step fl sized to from c r t sent held v l io_to, done) refl,
        λ out.
            let (r', all) = read out in
            (
              r',
              rw
                  (
                    received_step fl sized to from c r t sent held v l io_to io_from (write out) p
                        q,
                    all,
                  )
                  refl,
            ),
      )
