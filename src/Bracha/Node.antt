-- ===== src/Bracha/Node.antt =====
-- distbench-py/distbench/algorithms/bracha.py: the state of a node, and its handlers. A coroutine
-- that awaits the Dolev broadcast gives the event loop back, so what it still has to do is a
-- `Task`; between awaits a handler runs alone. `time.time()` and `uuid.uuid4()` are arguments.
use distributed_algo.Prelude.{
  ℕ, ◌+◌, String, List, [], ◌∷◌, Bool, true, false, not, ◌&&◌, Option, none, some, eq_string, ◌==◌,
  Dict, index, put, contains, add, length, count_true, leb, ltb, if◌then◌else◌, Result, ok, ◌>>=◌,
}
use distributed_algo.Bracha.Message.{BrachaMessage, Payload, message_of, echo_quorum, ready_quorum}
use distributed_algo.Bracha.Ledger.{
  Ledger, empty_ledger, init_state, add_echo, add_ready, mark_echo, mark_ready, mark_delivered,
}

pub record Bracha : Type 0 where
  pub id : String
  pub is_sender : Bool
  pub f : ℕ
  pub total : ℕ
  pub ready_threshold : ℕ
  pub deliver_threshold : ℕ
  pub seen_messages : List String
  pub ledger : Ledger
  pub expected_senders : List String
  pub start_time : ℕ
  pub delivery_times : Dict String ℕ
  pub messages_sent : ℕ
  pub messages_received : ℕ
  pub bracha_send_count : ℕ
  pub bracha_echo_count : ℕ
  pub bracha_ready_count : ℕ
  pub terminated : Bool

-- What is left of a coroutine behind an `await self.bracha(...)`.
pub data Task : Type 0 where
  deliver_check : BrachaMessage → Task
  start_echo : BrachaMessage → Task
  start_done : Task

-- One turn on the event loop: the state, the messages handed to Dolev, the line "BRACHA DELIVERED",
-- and the rest of the coroutine.
pub record Turn : Type 0 where
  pub node : Bracha
  pub out : List BrachaMessage
  pub delivers : Option BrachaMessage
  pub rest : Option Task

abbrev pub quiet : Bracha → Turn
quiet s = record { node = s; out = []; delivers = none; rest = none }

-- `__init__`
unfoldable pub init : String → Bool → ℕ → ℕ → Bracha
init id is_sender f peers = record {
  id = id;
  is_sender = is_sender;
  f = f;
  total = peers + 1;
  ready_threshold = echo_quorum (peers + 1) f;
  deliver_threshold = ready_quorum f;
  seen_messages = [];
  ledger = empty_ledger;
  expected_senders = [];
  start_time = 0;
  delivery_times = [];
  messages_sent = 0;
  messages_received = 0;
  bracha_send_count = 0;
  bracha_echo_count = 0;
  bracha_ready_count = 0;
  terminated = false;
}

unfoldable pub count_phase : String → Bracha → Bracha
count_phase method s =
    if method == "send"
    then record s { bracha_send_count = s.bracha_send_count + 1 }
    else if method == "echo"
    then record s { bracha_echo_count = s.bracha_echo_count + 1 }
    else if method == "ready"
    then record s { bracha_ready_count = s.bracha_ready_count + 1 }
    else s

-- `await self.bracha(method, msg)`, with what comes behind it
unfoldable pub bracha : String → BrachaMessage → Option Task → Bracha → Turn
unfolding count_phase
bracha method msg rest s = record {
  node = count_phase method s;
  out = msg ∷ [];
  delivers = none;
  rest = rest;
}

abbrev pub with_phase : String → BrachaMessage → BrachaMessage
with_phase phase msg = record msg { phase = phase }

unfoldable pub send : BrachaMessage → Bracha → Result Turn
send msg s =
    let m = msg.msg_id in
    let l = init_state m s.ledger in
    if contains s.seen_messages m then ok (quiet (record s { ledger = l })) else (do
      l' ← add_echo m s.id (mark_echo m l)
      ok (
          bracha "echo" (with_phase "echo" msg) none
            (record s { seen_messages = add m s.seen_messages; ledger = l' })))

unfoldable pub echo : String → BrachaMessage → Bracha → Result Turn
echo src msg s =
    let m = msg.msg_id in
    do
      l ← add_echo m src (init_state m s.ledger)
      sent ← index l.sent_ready m
      voters ← index l.echos m
      if not sent && leb s.ready_threshold (length voters)
          then ok
              (bracha "ready" (with_phase "ready" msg) none (record s { ledger = mark_ready m l }))
          else ok (quiet (record s { ledger = l }))

unfoldable pub check_completion : Bracha → Bracha
check_completion s =
    let expected = length s.expected_senders in
    if ltb 0 expected && leb expected (count_true s.ledger.delivered)
    then record s { terminated = true }
    else s

-- the second half of `ready`
unfoldable pub deliver : ℕ → BrachaMessage → Bracha → Result Turn
deliver now msg s =
    let m = msg.msg_id in
    do
      done ← index s.ledger.delivered m
      voters ← index s.ledger.readys m
      if not done && leb s.deliver_threshold (length voters)
          then ok (record {
            node = check_completion (record s {
              ledger = mark_delivered m s.ledger;
              delivery_times = put s.delivery_times m now;
            });
            out = [];
            delivers = some msg;
            rest = none;
          })
          else ok (quiet s)

unfoldable pub ready : ℕ → String → BrachaMessage → Bracha → Result Turn
ready now src msg s =
    let m = msg.msg_id in
    do
      l ← add_ready m src (init_state m s.ledger)
      sent ← index l.sent_ready m
      voters ← index l.readys m
      if not sent && leb (s.f + 1) (length voters)
          then ok
              (bracha "ready" msg (some (deliver_check msg)) (record s { ledger = mark_ready m l }))
          else deliver now msg (record s { ledger = l })

-- the handler that the phase of a message names
unfoldable pub dispatch : ℕ → String → BrachaMessage → Bracha → Result Turn
dispatch now src msg s =
    if msg.phase == "send"
    then send msg (record s { expected_senders = add msg.sender s.expected_senders })
    else if msg.phase == "echo"
    then echo src msg s
    else if msg.phase == "ready"
    then ready now src msg s
    else ok (quiet s)

unfoldable pub count_received : Bracha → Bracha
count_received s = record s { messages_received = s.messages_received + 1 }

-- A payload that is no message raises, and leaves the node with `count_received`.
unfoldable pub dolev_deliver : ℕ → String → Payload → Bracha → Result Turn
unfolding dispatch count_received message_of
dolev_deliver now src payload s = do
  msg ← message_of payload
  dispatch now src msg (count_received s)

unfoldable pub on_start : ℕ → String → String → Bracha → Turn
on_start now uuid greeting s =
    let s' = record s { start_time = now } in
    let msg : BrachaMessage = record {
      phase = "send";
      sender = s.id;
      msg_id = uuid;
      payload = greeting;
    } in
    if s.is_sender
    then bracha "send" msg (some (start_echo msg)) (record s' {
      ledger = init_state uuid s.ledger;
      expected_senders = add s.id s.expected_senders;
    })
    else quiet s'

-- the event loop runs a coroutine on
unfoldable pub resume : ℕ → Task → Bracha → Result Turn
resume now (deliver_check msg) s = deliver now msg s
resume now (start_echo msg) s =
    let m = msg.msg_id in
    do
      l ← add_echo m s.id (mark_echo m s.ledger)
      ok (
          bracha "echo" (with_phase "echo" msg) (some start_done)
            (record s { seen_messages = add m s.seen_messages; ledger = l }))
resume now start_done s = ok (quiet (record s { terminated = true }))
