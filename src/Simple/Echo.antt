-- ===== src/Simple/Echo.antt =====
-- distbench-py/distbench/algorithms/echo.py. The outcome of each call of a peer is given.
use distributed_algo.Prelude.{
  ℕ, ◌+◌, String, List, [], ◌∷◌, Bool, true, false, Option, none, some, Result, ok, raises, ◌==◌,
  eq_string, if◌then◌else◌,
}

pub record Message : Type 0 where
  pub sender : String
  pub message : String

pub record Echo : Type 0 where
  pub start_node : Bool
  pub peers : List String
  pub messages_received : ℕ
  pub is_terminated : Bool

unfoldable pub init : Bool → List String → Echo
init start_node peers = record {
  start_node = start_node;
  peers = peers;
  messages_received = 0;
  is_terminated = false;
}

-- the handler: the message goes back
unfoldable pub message : Message → Echo → Echo × String
message m e = (record e { messages_received = e.messages_received + 1 }, m.message)

abbrev pub hello : Message
hello = record { sender = "Test"; message = "Hello, world!" }

-- how the start node logs a call: echoed, not echoed, or an error
pub data Line : Type 0 where
  echoed : (peer : String) → (response : String) → Line
  missing : (peer : String) → Line
  error : (peer : String) → Line

unfoldable pub line : String → Result (Option String) → Line
line peer (raises x) = error peer
line peer (ok none) = missing peer
line peer (ok (some response)) = if response == "" then missing peer else echoed peer response

unfoldable pub call_each : (String → Message → Result (Option String)) → List String → List Line
unfolding line
call_each call [] = []
call_each call (p ∷ ps) = line p (call p hello) ∷ call_each call ps

-- `on_start`: the calls, and then the end in any case
unfoldable pub on_start : (String → Message → Result (Option String)) → Echo → Echo × List Line
unfolding call_each
on_start call e =
    let done = record e { is_terminated = true } in
    elim e.start_node [ true ↦ (done, call_each call e.peers) | false ↦ (done, []) ]
