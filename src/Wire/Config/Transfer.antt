-- ===== src/Wire/Config/Transfer.antt =====
-- src/nn/nn-network.cpp, `writeToWorkers` against `readNet` and `readNode`.
use prefill_opt.Prelude.{
  ℕ, zero, suc, ◌≡◌, refl, subst, ok, some, List, [], ◌∷◌, map, length, get_elem?, replicate, arith,
}
use prefill_opt.Wire.Codec.{write_ack}
use prefill_opt.Wire.Codec.Laws.{All, get_elem?-All, read_ack-write_ack}
use prefill_opt.Wire.Config.{NetConfig, net_message}
use prefill_opt.Wire.Config.Node.{NodeConfig, node_message}
use prefill_opt.Wire.Config.Session.{
  End, write_net, write_node, write_from, write_to_workers, read_config, answered, receiver,
}
use prefill_opt.Wire.Config.Bounds.{IsNet, IsNode}
use prefill_opt.Wire.Config.RoundTrip.{read_net-net_message, read_node-node_message}

-- What the root has sent to a worker.
told : NetConfig → NodeConfig → End
told net node = record { sent = λ out. net_message net (node_message node out); incoming = [] }

write_from-answered :
    (net : NetConfig) (nodes : List NodeConfig)
    → write_from (length nodes) net nodes (replicate (length nodes) answered)
      ≡ ok (map (told net) nodes)
unfolding write_from write_net write_node told
write_from-answered net [] = refl
write_from-answered net (node ∷ nodes) =
    rw (read_ack-write_ack (write_ack []), read_ack-write_ack [], write_from-answered net nodes)

read_config-told :
    (net : NetConfig) (node : NodeConfig)
    → IsNet net
    → IsNode node
    → read_config (receiver ((told net node).sent []))
      ≡ ok (net, node, record { sent = λ out. write_ack (write_ack out); incoming = [] })
unfolding read_config told
read_config-told net node h g =
    rw (read_net-net_message net (node_message node []) h, read_node-node_message node [] g)

get_elem?-told :
    (net : NetConfig) (nodes : List NodeConfig) (i : ℕ) {node : NodeConfig}
    → get_elem? nodes i ≡ some node
    → get_elem? (map (told net) nodes) i ≡ some (told net node)
get_elem?-told net [] i h = cc
get_elem?-told net (x ∷ nodes) zero h = cc
get_elem?-told net (x ∷ nodes) (suc i) h = get_elem?-told net nodes i h

-- The root, whose workers all answer, writes to all of them without an error, and each worker reads
-- from what its socket brings the network configuration and its own node configuration, with nothing
-- left over, and answers with just the two acks that the root waits for. The numbers must have the
-- widths of their fields, and there must be a configuration and a socket for every node.
pub config_transfer :
    (net : NetConfig) (root : NodeConfig) (nodes : List NodeConfig)
    → IsNet net
    → All IsNode nodes
    → net.n_nodes ≡ suc (length nodes)
    → (ends : List End) × (write_to_workers net (root ∷ nodes) (replicate (length nodes) answered)
        ≡ ok ends)
      × ((i : ℕ) (node : NodeConfig)
          → get_elem? nodes i ≡ some node
          → (s : End) × (get_elem? ends i ≡ some s)
            × (read_config (receiver (s.sent []))
                ≡ ok
                    (net, node, record { sent = λ out. write_ack (write_ack out); incoming = [] })))
unfolding write_to_workers
config_transfer net root nodes h all n = (
  map (told net) nodes,
  subst
      (λ k. write_from k net nodes (replicate (length nodes) answered) ≡ ok (map (told net) nodes))
      (omega (arith, n)) (write_from-answered net nodes),
  λ i node at. (
    told net node,
    get_elem?-told net nodes i at,
    read_config-told net node h (get_elem?-All IsNode nodes i all at),
  ),
)
