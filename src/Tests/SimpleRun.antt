-- ===== src/Tests/SimpleRun.antt =====
-- Two layers over a format that writes a message as a number, with a mark for its type in front.
use distributed_algo.Prelude.{
  ℕ, nat_eqb, Bool, not, false, get, has, Result, value_error, String, List, [], ◌∷◌, true, Option,
  none, some, contains, IsDistinct, eq_string, ok, raises, ◌≡◌, refl, if◌then◌else◌, ◌==◌,
  connection_error,
}
use distributed_algo.Framework.Messages.{Bytes, Value, Values, bin, str, arr}
use distributed_algo.Framework.Signing.{Obj, Crypto, recursive_verify}
use distributed_algo.Framework.Tree.{HandlerInfo, ClassInfo, Context, blank}
use distributed_algo.Framework.Tree.Route.{keystore, call_verified}
use distributed_algo.Framework.Tree.Deliver.{
  Format, interface, deliver_message, deliver_asked, find_handler,
}
use distributed_algo.Simple.Carried.{handled, layers, Readable, on_start-Started_carried}
use distributed_algo.Simple.{UpperMessage, broadcast_send, broadcast_echo, Upper, Layers, on_start}
use distributed_algo.Simple.Received.{numbered, receive_all}
use distributed_algo.Simple.Started.{Started}
use distributed_algo.Simple.Echo

program : Unit {0}
unfolding on_start layers interface deliver_message deliver_asked find_handler get has call_verified
    keystore recursive_verify handled receive_all numbered contains IsDistinct Echo.on_start
program = tt

-- a name for each message, of which the second send and the echo have an empty content
abbrev name_of : UpperMessage → String
name_of (broadcast_send c i) = if nat_eqb i 0 then "first" else "second"
name_of (broadcast_echo c s) = "echo"

abbrev type_id : UpperMessage → String
type_id (broadcast_send c i) = "BroadcastSend"
type_id (broadcast_echo c s) = "BroadcastEcho"

abbrev of_object : Obj → Option UpperMessage
of_object (Obj.primitive s) =
    if s == "echo"
    then some (broadcast_echo [] "n1")
    else some (broadcast_send [] (if s == "first" then 0 else 1))
of_object o = none

abbrev code : String → ℕ
code s = if s == "first" then 0 else if s == "second" then 1 else 2

abbrev name_at : ℕ → String
name_at n = if nat_eqb n 0 then "first" else if nat_eqb n 1 then "second" else "echo"

abbrev write : Obj → Bytes
write (Obj.primitive s) = code s ∷ []
write o = []

abbrev read : Value → Result Obj
read (bin (n ∷ [])) = ok (Obj.primitive (name_at n))
read v = raises value_error

abbrev mark : String → ℕ
mark t = if t == "BroadcastSend" then 0 else 1

abbrev unmark : ℕ → String
unmark n = if nat_eqb n 0 then "BroadcastSend" else "BroadcastEcho"

abbrev unwrap : Bytes → Result (String × Bytes)
unwrap [] = raises value_error
unwrap (n ∷ b) = ok (unmark n, b)

abbrev unwrap_tuple : Bytes → Result Value
unwrap_tuple [] = raises value_error
unwrap_tuple (n ∷ b) = ok (arr (Values.cons (str (unmark n)) (Values.cons (bin b) Values.nil)))

abbrev format : Format
format = record {
  serialize = write;
  serialize_algorithm = λ m. mark m.0 ∷ m.1;
  serialize_envelope = λ m. mark m.0 ∷ m.1;
  deserialize = λ v t. read v;
  deserialize_algorithm = unwrap;
  deserialize_tuple = unwrap_tuple;
}

abbrev toy : Crypto (Unit {0})
toy = record {
  digest = λ o. [];
  is_key = λ k. true;
  verifies = λ k d s. true;
  public_key_bytes = λ k. [];
  sign_digest = λ k d. [];
}

abbrev info : HandlerInfo
info = record { msg_type = "Message"; is_resolved = true; returns = false }

abbrev cls : ClassInfo (Unit {0})
cls = record {
  config_fields = [];
  resets = false;
  handler_methods = [];
  child_handlers = ("lower", ("BroadcastSend", info) ∷ ("BroadcastEcho", info) ∷ []) ∷ [];
}

-- every call of `n2` raises
abbrev arrives : String → Bytes → Bool
arrives peer bytes = not (peer == "n2")

abbrev keys : Unit {0} → String → Option Bytes
keys c p = none

abbrev context : Context (Unit {0}) (Unit {0}) Format
context = blank

abbrev as_object : UpperMessage → Obj
as_object m = Obj.primitive (name_of m)

abbrev stack : Layers
stack = layers toy keys cls context format type_id as_object of_object (λ s. []) arrives

abbrev quiet : List String → Upper
quiet messages = record {
  start_node = true;
  messages = messages;
  send_received = [];
  echo_received = [];
  lower = record { node_id = some "n1"; peers = "n2" ∷ "n3" ∷ []; messages_broadcasted = 0 };
}

-- three sends to two peers: two messages and the echo
run_lem :
    (on_start stack (quiet ("a" ∷ "b" ∷ []))).0.send_received
    ≡ broadcast_send [] 0 ∷ broadcast_send [] 1 ∷ []
unfolding program
run_lem = refl

two_peers :
    IsDistinct {A = String} ("n2" ∷ "n3" ∷ [])
    × (contains {A = String} ("n2" ∷ "n3" ∷ []) "n3" ≡ true)
unfolding program
two_peers = ((refl, (refl, tt)), refl)

abbrev Reads : UpperMessage → Type 0
Reads = Readable toy keys cls context format type_id as_object of_object (λ s. []) arrives "n3"

first_is_readable : Reads (broadcast_send [] 0)
unfolding find_handler get has
first_is_readable = record {
  info = info;
  listed = refl;
  resolved = refl;
  algorithm = refl;
  envelope = refl;
  object = refl;
  authentic = tt;
  same = refl;
  reaches = refl;
}

second_is_readable : Reads (broadcast_send [] 1)
unfolding find_handler get has
second_is_readable = record {
  info = info;
  listed = refl;
  resolved = refl;
  algorithm = refl;
  envelope = refl;
  object = refl;
  authentic = tt;
  same = refl;
  reaches = refl;
}

echo_is_readable : Reads (broadcast_echo [] "n1")
unfolding find_handler get has
echo_is_readable = record {
  info = info;
  listed = refl;
  resolved = refl;
  algorithm = refl;
  envelope = refl;
  object = refl;
  authentic = tt;
  same = refl;
  reaches = refl;
}

on_start-Started_carried_example :
    Started stack "n3" "n1"
      (quiet ("a" ∷ "b" ∷ []))
      (quiet [])
      (on_start stack (quiet ("a" ∷ "b" ∷ [])))
unfolding program
on_start-Started_carried_example =
    on_start-Started_carried toy keys cls context format type_id as_object of_object (λ s. [])
      arrives "n3" "n1" (quiet ("a" ∷ "b" ∷ [])) (quiet []) refl refl two_peers.0 two_peers.1
      (first_is_readable, (second_is_readable, tt)) echo_is_readable

-- an empty answer and an error are logged, and the node terminates
echo_run :
    Echo.on_start
      (λ peer m. if peer == "b" then raises connection_error else ok (some m.message))
      (Echo.init true ("a" ∷ "b" ∷ []))
    ≡ (
      record {
        start_node = true;
        peers = "a" ∷ "b" ∷ [];
        messages_received = 0;
        is_terminated = true;
      },
      Echo.echoed "a" "Hello, world!" ∷ Echo.error "b" ∷ [],
    )
unfolding program Echo.init
echo_run = refl
