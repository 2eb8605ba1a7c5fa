-- ===== src/Tests/RemoteRun.antt =====
-- A node with one handler, called from the other end of a connection.
use distributed_algo.Prelude.{
  ℕ, ◌+◌, ◌<◌, String, [], ◌∷◌, true, false, none, some, eq_nat, eq_string, get, has, put, length,
  Result, ok, ◌≡◌, refl, arith,
}
use distributed_algo.Framework.Messages.{Value, Msgpack, serialize_algorithm}
use distributed_algo.Framework.Community
use distributed_algo.Framework.Community.{Community, id_of}
use distributed_algo.Framework.Signing.{Obj, Crypto, recursive_verify}
use distributed_algo.Framework.Node
use distributed_algo.Framework.Node.{Node}
use distributed_algo.Framework.Tree.{HandlerInfo, ClassInfo, blank, Algorithm, algorithm, no_child}
use distributed_algo.Framework.Tree.Route.{Call, handle}
use distributed_algo.Framework.Tree.Peer.{send_message}
use distributed_algo.Remote.{Invoke, connect_peer}
use distributed_algo.Remote.Returned.{algorithm_value, serve_call, Handled, send_message-Handled}

program : Unit {0}
unfolding id_of get has put handle Community.init recursive_verify serialize_algorithm Node.init
program = tt

abbrev toy : Crypto Unit
toy = record {
  digest = λ o. [];
  is_key = λ k. true;
  verifies = λ k d s. true;
  public_key_bytes = λ k. [];
  sign_digest = λ k d. [];
}

-- two bytes stand for the one message of the run
abbrev msgpack : Msgpack
msgpack = record { packb = λ v. 9 ∷ 9 ∷ []; unpackb = λ b. ok (algorithm_value "ping" (1 ∷ [])) }

abbrev info : HandlerInfo
info = record { msg_type = "Ping"; is_resolved = true; returns = true }

abbrev cls : ClassInfo Unit
cls = record {
  config_fields = [];
  resets = false;
  handler_methods = ("ping", info) ∷ [];
  child_handlers = [];
}

abbrev root : Algorithm Unit Unit Unit Unit
root = algorithm "" cls blank false [] no_child

abbrev read_object : Value → String → Result Obj
read_object v t = ok (Obj.primitive t)

abbrev ping : Call Unit Unit Unit Unit
ping = record {
  path = [];
  cls = cls;
  context = blank;
  method = "ping";
  info = info;
  message = Obj.primitive "Ping";
}

-- counts its calls, and answers
abbrev invoke : Invoke Unit Unit Unit Unit ℕ
invoke src k s = (ok (some (Obj.primitive "Pong")), s + 1)

abbrev callee : Node ℕ Unit ℕ
callee = Node.init "n1" (Community.init (λ a. tt) [] (("n2", 5) ∷ [])) 0 []

handled_lem :
    Handled {M = Unit} toy msgpack read_object
      (λ o. 1 ∷ [])
      (λ s. 0)
      (λ c p. none)
      invoke
      root
      (λ n. false)
      (λ w. true)
      5
      "n2"
      "ping"
      (Obj.primitive "Ping")
      (Obj.primitive "Pong")
      ping
      callee
      1
unfolding program
handled_lem = record {
  running = refl;
  taken = refl;
  known = refl;
  read = refl;
  routed = refl;
  handled = refl;
}

small : length (serialize_algorithm msgpack "ping" (1 ∷ [])) < 4294967295
unfolding program
small = omega arith

send_message-Handled_example :
    (send_message toy read_object
        (some (λ p. none))
        (connect_peer msgpack
          (serve_call {M = Unit} toy msgpack read_object
            (λ o. 1 ∷ [])
            (λ s. 0)
            (λ c p. none)
            invoke
            root
            (λ n. false)
            (λ w. true)
            5
            "ping"
            (Obj.primitive "Ping")
            callee).written)
        (λ o. 1 ∷ [])
        "ping"
        (Obj.primitive "Ping")
        true
        (some "Pong")
      ≡ ok (some (Obj.primitive "Pong")))
    × ((serve_call {M = Unit} toy msgpack read_object
          (λ o. 1 ∷ [])
          (λ s. 0)
          (λ c p. none)
          invoke
          root
          (λ n. false)
          (λ w. true)
          5
          "ping"
          (Obj.primitive "Ping")
          callee).state.state
        ≡ 1)
send_message-Handled_example =
    send_message-Handled toy msgpack read_object (λ o. 1 ∷ []) (λ s. 0) (λ c p. none) invoke root
      (λ n. false) (λ w. true) (λ p. none) 5 "n2" "ping" "Pong" (Obj.primitive "Ping")
      (Obj.primitive "Pong") ping callee 1 1 [] handled_lem refl refl tt (omega arith) small
      (omega arith)
