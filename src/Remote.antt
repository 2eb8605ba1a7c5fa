-- ===== src/Remote.antt =====
-- distbench-py/distbench: a call of a peer from end to end. The node of node.py serves the connection
-- of transport/tcp.py, and hands the message to the tree of algorithms of decorators.py.
pub mod Returned
use distributed_algo.Prelude.{
  ℕ, String, List, [], ◌∷◌, ◌++◌, Bool, true, false, Option, none, some, Result, ok, raises, eq_nat,
  ◌>>=◌,
}
use distributed_algo.Framework.Messages.{Bytes, Value, str, Msgpack, serialize_algorithm}
use distributed_algo.Framework.Signing.{Obj, Crypto}
use distributed_algo.Framework.Node
use distributed_algo.Framework.Node.{Node}
use distributed_algo.Framework.Tree.{Algorithm}
use distributed_algo.Framework.Tree.Route.{Call, Routed, dropped, calls, fails, handle, respond}
use distributed_algo.Framework.Tree.Peer.{Connector}
use distributed_algo.Transport.Server.{Server}
use distributed_algo.Transport.Connection.{opened, send, cast}

-- what the method of a handler does: a result and a state of the program, from the sender and the call
abbrev pub Invoke : (V K C F S : Type 0) → Type 0
Invoke V K C F S = String → Call V K C F → S → Result (Option Obj) × S

unfoldable pub answered :
    {S : Type 0} → (Obj → Bytes) → Result (Option Obj) × S → Result (Option Bytes) × S
unfolding respond
answered serialize (raises x, s) = (raises x, s)
answered serialize (ok result, s) = (ok (respond serialize result), s)

unfoldable pub invoke_routed :
    {V K C F S : Type 0}
    → (Obj → Bytes)
    → Invoke V K C F S
    → String
    → Routed V K C F
    → S
    → Result (Option Bytes) × S
unfolding answered
invoke_routed serialize invoke src dropped s = (ok none, s)
invoke_routed serialize invoke src (fails x) s = (raises x, s)
invoke_routed serialize invoke src (calls k) s = answered serialize (invoke src k s)

module _ {V K C F S P : Type 0} (crypto : Crypto P) (keys : C → String → Option Bytes)
    (deserialize : Value → String → Result Obj) (serialize : Obj → Bytes)
    (invoke : Invoke V K C F S) (root : Algorithm V K C F) where
  -- `algorithm.handle` on a message without a path; a type that is no string has no handler
  unfoldable pub handle_typed : String → Value → Value → S → Result (Option Bytes) × S
  unfolding invoke_routed handle
  handle_typed src (str type_id) payload s =
      invoke_routed serialize invoke src (handle crypto keys deserialize type_id payload root []) s
  handle_typed src type_id payload s = (ok none, s)

  -- the hooks of the root algorithm, of which only `handle` is called by a message
  unfoldable pub hooks : Node.Algorithm S
  unfolding handle_typed
  hooks = record {
    handle = handle_typed;
    on_start = λ s. s;
    on_start_returned = λ s. true;
    turn = λ s. s;
    on_exit = λ s. s;
  }

-- a node as the server of a transport, whose addresses are numbers
unfoldable pub serve_node :
    {M S : Type 0}
    → Msgpack
    → Node.Algorithm S
    → (chars : String → ℕ) → (is_set : Node ℕ M S → Bool) → (writes : Bytes → Bool)
    → Server (Node ℕ M S)
unfolding Node.handle
serve_node msgpack alg chars is_set writes = record {
  is_set = is_set;
  writes = writes;
  handle = λ n address m. let (r, n') = Node.handle msgpack alg chars address m n in (n', r);
}

-- a peer behind an open connection, on which `incoming` can be read
unfoldable pub connect_peer : Msgpack → (incoming : Bytes) → Connector
unfolding send cast serialize_algorithm
connect_peer msgpack incoming = record {
  cast = λ t payload. (cast opened (serialize_algorithm msgpack t payload) true incoming).result;
  send = λ t payload. (send opened (serialize_algorithm msgpack t payload) true incoming).result;
}
