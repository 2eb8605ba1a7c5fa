-- ===== src/Simple.antt =====
-- distbench-py/distbench/algorithms/simple_broadcast.py: a broadcast layer with a layer above it, and
-- echo.py. The framework between the layers is the record `Layers`: what a call of an `@interface`
-- method is called with, and which handler of the parent, if any, a delivered message reaches;
-- Carried makes it of the definitions of Framework/Tree/Deliver.
pub mod Carried
pub mod Received
pub mod Started
pub mod Echo
use distributed_algo.Prelude.{
  ℕ, suc, ◌+◌, String, List, [], ◌∷◌, ◌++◌, Bool, true, false, Option, none, some, map, length,
  if◌then◌else◌, Result, ok, raises, runtime_error, ◌>>=◌,
}
use distributed_algo.Framework.Messages.{Bytes}

-- `BroadcastSend` and `BroadcastEcho`
pub data UpperMessage : Type 0 where
  broadcast_send : (content : Bytes) → (sequence : ℕ) → UpperMessage
  broadcast_echo : (content : Bytes) → (original_sender : String) → UpperMessage

-- the layer below: `SimpleBroadcast`
pub record Lower : Type 0 where
  pub node_id : Option String
  pub peers : List String
  pub messages_broadcasted : ℕ

-- the layer above: `SimpleBroadcastUpper`
pub record Upper : Type 0 where
  pub start_node : Bool
  pub messages : List String
  pub send_received : List UpperMessage
  pub echo_received : List UpperMessage
  pub lower : Lower

-- a `SimpleBroadcastMessage` that reaches a peer
pub record Sent : Type 0 where
  pub peer : String
  pub payload : Bytes

pub record Layers : Type 0 where
  -- what an interface method of the layer below gets for a message
  pub interface : UpperMessage → Result Bytes
  -- the message that `deliver_message` hands to a handler of the parent
  pub deliver : Bytes → Result (Option UpperMessage)
  pub encode : String → Bytes
  -- whether the call of a peer with these bytes reaches its handler, or raises, which is only logged
  pub arrives : String → Bytes → Bool

-- `b"Echo from upper layer"`
abbrev pub echo_content : (String → Bytes) → Bytes
echo_content encode = encode "Echo from upper layer"

-- the two handlers of the layer above
unfoldable pub on_delivered : UpperMessage → Upper → Upper
on_delivered (broadcast_send content sequence) u = record u {
  send_received = u.send_received ++ broadcast_send content sequence ∷ [];
}
on_delivered (broadcast_echo content sender) u = record u {
  echo_received = u.echo_received ++ broadcast_echo content sender ∷ [];
}

-- `deliver_message` in a `try`, where an exception is only logged
unfoldable pub deliver_caught : Result (Option UpperMessage) → Upper → Upper
unfolding on_delivered
deliver_caught (raises x) u = u
deliver_caught (ok none) u = u
deliver_caught (ok (some m)) u = on_delivered m u

-- one `SimpleBroadcastMessage` for each peer whose call does not raise
unfoldable pub send_each : (arrives : String → Bytes → Bool) → Bytes → List String → List Sent
send_each arrives payload [] = []
send_each arrives payload (p ∷ ps) =
    let rest = send_each arrives payload ps in
    if arrives p payload then record { peer = p; payload = payload } ∷ rest else rest

module _ (layers : Layers) where
  -- the handler `simple_broadcast_message` of a node
  unfoldable pub receive : Bytes → Upper → Upper
  unfolding deliver_caught
  receive payload u = deliver_caught (layers.deliver payload) u

  -- its own delivery asks for `self.id()` first, in the same `try`
  unfoldable pub deliver_own : Option String → Bytes → Upper → Upper
  unfolding receive
  deliver_own none payload u = u
  deliver_own (some node_id) payload u = receive payload u

  -- the method `broadcast` on the bytes of the interface
  unfoldable pub broadcast_bytes : Bytes → Upper → Upper × List Sent
  unfolding send_each deliver_own
  broadcast_bytes payload u =
      let counted = record (u.lower) { messages_broadcasted = u.lower.messages_broadcasted + 1 } in
      (
        deliver_own u.lower.node_id payload (record u { lower = counted }),
        send_each layers.arrives payload u.lower.peers,
      )

  -- the call in the layer above, whose exceptions are logged
  unfoldable pub broadcast : Result Bytes → Upper → Upper × List Sent
  unfolding broadcast_bytes
  broadcast (raises x) u = (u, [])
  broadcast (ok payload) u = broadcast_bytes payload u

  -- the loop over the messages, with their numbers from `i` on
  unfoldable pub broadcast_sends : ℕ → List String → Upper → Upper × List Sent
  unfolding broadcast
  broadcast_sends i [] u = (u, [])
  broadcast_sends i (m ∷ ms) u =
      let (u', sent) = broadcast (layers.interface (broadcast_send (layers.encode m) i)) u in
      let (u'', later) = broadcast_sends (i + 1) ms u' in (u'', sent ++ later)

  -- the echo names the node, which raises outside of a `try` if the id is not set
  unfoldable pub broadcast_own_echo : Option String → Upper × List Sent → Upper × Result (List Sent)
  unfolding broadcast
  broadcast_own_echo none (u, sent) = (u, raises runtime_error)
  broadcast_own_echo (some node_id) (u, sent) =
      let (u', later) =
        broadcast (layers.interface (broadcast_echo (echo_content layers.encode) node_id)) u in
      (u', ok (sent ++ later))

  unfoldable pub start : Bool → Upper → Upper × Result (List Sent)
  unfolding broadcast_sends broadcast_own_echo
  start false u = (u, ok [])
  start true u = broadcast_own_echo u.lower.node_id (broadcast_sends 0 u.messages u)

  unfoldable pub on_start : Upper → Upper × Result (List Sent)
  unfolding start
  on_start u = start u.start_node u

-- `report` of the two layers, with its numbers as numbers
unfoldable pub report_lower : Lower → ℕ
report_lower l = l.messages_broadcasted

unfoldable pub report_upper : Upper → ℕ × ℕ × Bool
report_upper u = (length u.send_received, length u.echo_received, u.start_node)
