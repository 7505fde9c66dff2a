-- ===== src/Wire/Config/Session.antt =====
-- src/nn/nn-network.cpp, `writeToWorkers` and the two ends of a socket.
use prefill_opt.Prelude.{ℕ, zero, suc, ◌-◌, Result, ok, err, ◌>>=◌, List, [], ◌∷◌}
use prefill_opt.Wire.Codec.{Writer, WireError, no_such_socket, no_such_node, write_ack, read_ack}
use prefill_opt.Wire.Config.{NetConfig, net_message, read_net}
use prefill_opt.Wire.Config.Node.{NodeConfig, node_message, read_node}

-- One end of a socket: what it has sent so far, in front of what it sends next, and the bytes that
-- come in.
pub record End : Type 0 where
  pub sent : Writer
  pub incoming : List ℕ

-- `writeNet`: the message, and the wait for the worker's ack
unfoldable pub write_net : NetConfig → End → Result WireError End
write_net c s = do
  (_, incoming) ← read_ack s.incoming
  ok record { sent = λ out. s.sent (net_message c out); incoming = incoming }

unfoldable pub write_node : NodeConfig → End → Result WireError End
write_node c s = do
  (_, incoming) ← read_ack s.incoming
  ok record { sent = λ out. s.sent (node_message c out); incoming = incoming }

-- `writeToWorkers`, the loop over the nodes from 1 on, `k` of them, with node i on socket i - 1
unfoldable pub write_from : ℕ → NetConfig → List NodeConfig → List End → Result WireError (List End)
write_from zero net nodes sockets = ok sockets
write_from (suc k) net [] sockets = err no_such_node
write_from (suc k) net (node ∷ nodes) [] = err no_such_socket
write_from (suc k) net (node ∷ nodes) (s ∷ sockets) = do
  told ← write_net net s
  done ← write_node node told
  rest ← write_from k net nodes sockets
  ok (done ∷ rest)

-- The configurations of the nodes start with the root's own.
unfoldable pub write_to_workers :
    NetConfig → List NodeConfig → List End → Result WireError (List End)
write_to_workers net [] sockets = write_from (net.n_nodes - 1) net [] sockets
write_to_workers net (root ∷ nodes) sockets = write_from (net.n_nodes - 1) net nodes sockets

-- A worker: `readNet` and `readNode`, each with its ack at the end
unfoldable pub read_config : End → Result WireError (NetConfig × NodeConfig × End)
read_config s = do
  (net, after_net) ← read_net s.incoming
  (node, after_node) ← read_node after_net
  ok (net, node, record { sent = λ out. s.sent (write_ack (write_ack out)); incoming = after_node })

-- What the root sees of a worker that has answered both messages.
abbrev pub answered : End
answered = record { sent = λ out. out; incoming = write_ack (write_ack []) }

-- What a worker sees of the root's bytes before it reads.
abbrev pub receiver : List ℕ → End
receiver bytes = record { sent = λ out. out; incoming = bytes }
