-- ===== src/Wire/Config/Cut.antt =====
-- src/nn/nn-network.cpp: a worker whose socket is closed before the end of a configuration.
use prefill_opt.Prelude.{◌≡◌, List, [], ◌∷◌, ◌++◌, err, ℕ, subst, Result-cases, ok, inl, inr}
use prefill_opt.Wire.Codec.{Reader, WireError, closed, pure, ◌>>=◌}
use prefill_opt.Wire.Codec.Prefix.{
  IsHonest, pure-IsHonest, bind-IsHonest, read32-IsHonest, read64-IsHonest, read_ack-IsHonest,
  read_string-IsHonest, read_many-IsHonest, read_bytes-IsHonest, cut_off,
}
use prefill_opt.Wire.Config.{NetConfig, read_size, read_named, read_pre_sync, read_net, net_message}
use prefill_opt.Wire.Config.Node.{
  NodeConfig, read_pointer, read_op, read_sync, read_segment, read_place, read_node, node_message,
}
use prefill_opt.Wire.Config.Session.{End, read_config, receiver}
use prefill_opt.Wire.Config.Bounds.{IsNet, IsNode}
use prefill_opt.Wire.Config.RoundTrip.{read_net-net_message, read_node-node_message}

read_size-IsHonest : IsHonest read_size
unfolding read_size
read_size-IsHonest = bind-IsHonest _ _ read32-IsHonest λ float_type.
    bind-IsHonest _ _ read32-IsHonest λ z. bind-IsHonest _ _ read32-IsHonest λ y.
      bind-IsHonest _ _ read32-IsHonest λ x. bind-IsHonest _ _ read64-IsHonest λ size_length.
        bind-IsHonest _ _ read64-IsHonest
          λ n_bytes. bind-IsHonest _ _ read64-IsHonest λ n_bytes_xy. pure-IsHonest _

read_named-IsHonest : IsHonest read_named
unfolding read_named
read_named-IsHonest =
    bind-IsHonest _ _ read_size-IsHonest
      λ size. bind-IsHonest _ _ read_string-IsHonest λ name. pure-IsHonest _

read_pre_sync-IsHonest : IsHonest read_pre_sync
unfolding read_pre_sync
read_pre_sync-IsHonest = bind-IsHonest _ _ read32-IsHonest λ index. pure-IsHonest _

read_net-IsHonest : IsHonest read_net
unfolding read_net
read_net-IsHonest = bind-IsHonest _ _ read_ack-IsHonest λ _.
    bind-IsHonest _ _ read32-IsHonest λ n_batches. bind-IsHonest _ _ read32-IsHonest λ n_nodes.
      bind-IsHonest _ _ read32-IsHonest λ n_pipes.
        bind-IsHonest _ _ (read_many-IsHonest _ read_named-IsHonest n_pipes) λ pipes.
          bind-IsHonest _ _ read32-IsHonest λ n_pre_syncs.
            bind-IsHonest _ _ (read_many-IsHonest _ read_pre_sync-IsHonest n_pre_syncs)
              λ pre_syncs. pure-IsHonest _

read_pointer-IsHonest : IsHonest read_pointer
unfolding read_pointer
read_pointer-IsHonest = bind-IsHonest _ _ read32-IsHonest λ source.
    bind-IsHonest _ _ read32-IsHonest
      λ pointer_index. bind-IsHonest _ _ read32-IsHonest λ pointer_type. pure-IsHonest _

read_op-IsHonest : IsHonest read_op
unfolding read_op
read_op-IsHonest = bind-IsHonest _ _ read32-IsHonest λ code.
    bind-IsHonest _ _ read32-IsHonest λ index. bind-IsHonest _ _ read_size-IsHonest λ weight_size.
      bind-IsHonest _ _ read32-IsHonest λ config_size.
        bind-IsHonest _ _ read_string-IsHonest λ op_name.
          bind-IsHonest _ _ read_pointer-IsHonest λ input.
            bind-IsHonest _ _ read_pointer-IsHonest λ output.
              bind-IsHonest _ _ (read_bytes-IsHonest config_size) λ config. pure-IsHonest _

read_sync-IsHonest : IsHonest read_sync
unfolding read_sync
read_sync-IsHonest = bind-IsHonest _ _ read32-IsHonest λ pipe_index.
    bind-IsHonest _ _ read32-IsHonest λ sync_type.
      bind-IsHonest _ _ read32-IsHonest λ k_buffer_index.
        bind-IsHonest _ _ read32-IsHonest λ v_buffer_index.
          bind-IsHonest _ _ read32-IsHonest λ local_seq_start.
            bind-IsHonest _ _ read32-IsHonest λ local_seq_len.
              bind-IsHonest _ _ read32-IsHonest
                λ kv_dim0. bind-IsHonest _ _ read32-IsHonest λ position_pipe_idx. pure-IsHonest _

read_segment-IsHonest : IsHonest read_segment
unfolding read_segment
read_segment-IsHonest = bind-IsHonest _ _ read32-IsHonest λ n_syncs.
    bind-IsHonest _ _ read32-IsHonest λ n_ops.
      bind-IsHonest _ _ (read_many-IsHonest _ read_sync-IsHonest n_syncs) λ syncs.
        bind-IsHonest _ _ (read_many-IsHonest _ read_op-IsHonest n_ops) λ ops. pure-IsHonest _

read_place-IsHonest : IsHonest read_place
unfolding read_place
read_place-IsHonest = bind-IsHonest _ _ read32-IsHonest λ node_index.
    bind-IsHonest _ _ read32-IsHonest λ pp_rank. bind-IsHonest _ _ read32-IsHonest λ tp_rank.
      bind-IsHonest _ _ read32-IsHonest λ tp_group_start.
        bind-IsHonest _ _ read32-IsHonest λ tp_group_end.
          bind-IsHonest _ _ read32-IsHonest λ sp_rank.
            bind-IsHonest _ _ read32-IsHonest
              λ sp_group_start. bind-IsHonest _ _ read32-IsHonest λ sp_group_end. pure-IsHonest _

read_node-IsHonest : IsHonest read_node
unfolding read_node
read_node-IsHonest = bind-IsHonest _ _ read_ack-IsHonest λ _.
    bind-IsHonest _ _ read_place-IsHonest λ place.
      bind-IsHonest _ _ read32-IsHonest λ position_pipe_index.
        bind-IsHonest _ _ read32-IsHonest λ token_pipe_index.
          bind-IsHonest _ _ read32-IsHonest λ x_pipe_index.
            bind-IsHonest _ _ read32-IsHonest λ logits_pipe_index.
              bind-IsHonest _ _ read32-IsHonest λ n_buffers.
                bind-IsHonest _ _ read32-IsHonest λ n_segments.
                  bind-IsHonest _ _ (read_many-IsHonest _ read_named-IsHonest n_buffers) λ buffers.
                    bind-IsHonest _ _ (read_many-IsHonest _ read_segment-IsHonest n_segments)
                      λ segments. pure-IsHonest _

unfoldable both : Reader (NetConfig × NodeConfig)
both = do net ← read_net; node ← read_node; pure (net, node)

both-IsHonest : IsHonest both
unfolding both
both-IsHonest =
    bind-IsHonest _ _ read_net-IsHonest
      λ net. bind-IsHonest _ _ read_node-IsHonest λ node. pure-IsHonest _

both-messages :
    (net : NetConfig) (node : NodeConfig)
    → IsNet net
    → IsNode node
    → both (net_message net (node_message node [])) ≡ ok ((net, node), [])
unfolding both
both-messages net node h g =
    rw (read_net-net_message net (node_message node []) h, read_node-node_message node [] g)

read_config-both : (s : End) (e : WireError) → both s.incoming ≡ err e → read_config s ≡ err e
unfolding both read_config
read_config-both s e h = elim (Result-cases (read_net s.incoming)) [
  | inl (net, q) ↦ elim (Result-cases (read_node net.1)) [ inl (node, r) ↦ cc | inr (f, r) ↦ cc ]
  | inr (f, q) ↦ cc
]

-- A worker whose socket closes anywhere before the end of the two messages of the root, however much
-- it has read, stops with the error and never with a configuration.
pub read_config_cut :
    (net : NetConfig) (node : NodeConfig) (part : List ℕ) (b : ℕ) (lost : List ℕ)
    → IsNet net
    → IsNode node
    → net_message net (node_message node []) ≡ part ++ b ∷ lost
    → read_config (receiver part) ≡ err closed
read_config_cut net node part b lost h g e = read_config-both (receiver part) closed (
    cut_off both {a = (net, node)} part b lost both-IsHonest
      (subst (λ bytes. both bytes ≡ ok ((net, node), [])) e (both-messages net node h g)))
