-- ===== src/Optimized/Handlers.antt =====
-- distbench-py/distbench/algorithms/bracha_optimized.py: the handlers. A coroutine that awaits a
-- broadcast, or a call of a peer, leaves the rest of its work as a `Task`. `time.time()` and
-- `uuid.uuid4()` are arguments, and so is the text of the payload of the i-th message.
use distributed_algo.Prelude.{
  ℕ, ◌+◌, String, [], Bool, true, false, not, ◌&&◌, ◌||◌, nat_eqb, Option, none, some, eq_string,
  ◌==◌, index, get_or, put, contains, add, length, leb, ltb, if◌then◌else◌, Result, ok, ◌>>=◌, keep,
}
use distributed_algo.Bracha.Message.{BrachaMessage, Payload, message_of}
use distributed_algo.Bracha.Ledger.{
  init_state, add_echo, add_ready, mark_echo, mark_ready, mark_delivered,
}
use distributed_algo.Optimized.Node.{
  BrachaOptimized, should_generate_echo, should_generate_ready, register_message, Task, ready_check,
  deliver_check, Turn, quiet, bracha,
}

abbrev pub with_phase : String → BrachaMessage → BrachaMessage
with_phase phase msg = record msg { phase = phase }

-- `sent_echo[msg_id] = True; echos[msg_id].add(id)`, and the broadcast
unfoldable pub generate_echo : BrachaMessage → Option Task → BrachaOptimized → Result Turn
generate_echo msg rest s = do
  l ← add_echo msg.msg_id s.id (mark_echo msg.msg_id s.ledger)
  ok (bracha "echo" (with_phase "echo" msg) rest (record s { ledger = l }))

-- `init_state` and `register_message`, with which the handlers begin
unfoldable pub open_message : String → BrachaOptimized → BrachaOptimized
unfolding register_message
open_message m s = register_message m (record s { ledger = init_state m s.ledger })

-- A single-hop SEND is always echoed, by whoever hears it.
unfoldable pub send : BrachaMessage → BrachaOptimized → Result Turn
unfolding open_message generate_echo
send msg s₀ =
    let m = msg.msg_id in
    let s = open_message m s₀ in
    if contains s.seen_messages m
    then ok (quiet s)
    else (let s' = record s { seen_messages = add m s.seen_messages } in
        if s.enable_single_hop_send
        then (do
          sent ← index s'.ledger.sent_echo m
          if sent then ok (quiet s') else generate_echo msg none s')
        else if not s.enable_reduced_messages || should_generate_echo msg.sender s
        then generate_echo msg none s'
        else ok (quiet s'))

-- a quorum of echos makes a node of the committee ready
unfoldable pub trigger_ready : BrachaMessage → BrachaOptimized → Result Turn
trigger_ready msg s =
    let m = msg.msg_id in
    do
      sent ← index s.ledger.sent_ready m
      voters ← index s.ledger.echos m
      if not sent && leb s.ready_threshold (length voters) && should_generate_ready msg.sender s
          then ok (
              bracha "ready" (with_phase "ready" msg) none
                (record s { ledger = mark_ready m s.ledger }))
          else ok (quiet s)

-- the amplified echo, with what follows it, or that at once
unfoldable pub echo_or_ready : Bool → BrachaMessage → BrachaOptimized → Result Turn
unfolding generate_echo trigger_ready
echo_or_ready true msg s = generate_echo msg (some (ready_check msg)) s
echo_or_ready false msg s = trigger_ready msg s

-- f + 1 echos make a node of the committee echo
unfoldable pub amplify_echo : BrachaMessage → BrachaOptimized → Result Turn
unfolding echo_or_ready
amplify_echo msg s =
    let m = msg.msg_id in
    do
      sent ← index s.ledger.sent_echo m
      voters ← index s.ledger.echos m
      echo_or_ready (not sent && leb (s.f + 1) (length voters) && should_generate_echo msg.sender s)
          msg s

unfoldable pub echo : String → BrachaMessage → BrachaOptimized → Result Turn
unfolding open_message amplify_echo trigger_ready
echo src msg s₀ =
    let m = msg.msg_id in
    let s = open_message m s₀ in
    do
      l ← add_echo m src s.ledger
      let s' = record s { ledger = l } in
          if s.enable_echo_amplification then amplify_echo msg s' else trigger_ready msg s'

-- `sum(self.delivered.get(mid, False) for mid in self.expected_messages)`
unfoldable pub count_delivered : BrachaOptimized → ℕ
count_delivered s = length (keep (λ m. get_or s.ledger.delivered m false) s.expected_messages)

unfoldable pub check_completion : BrachaOptimized → BrachaOptimized
unfolding count_delivered
check_completion s =
    let expected = length s.expected_messages in
    if ltb 0 expected && nat_eqb expected (count_delivered s)
    then record s { terminated = true }
    else s

unfoldable pub deliver : ℕ → BrachaMessage → BrachaOptimized → Result Turn
unfolding check_completion
deliver now msg s =
    let m = msg.msg_id in
    do
      done ← index s.ledger.delivered m
      voters ← index s.ledger.readys m
      if not done && leb s.deliver_threshold (length voters)
          then ok (record {
            node = check_completion (record s {
              ledger = mark_delivered m s.ledger;
              delivery_times = put s.delivery_times m now;
            });
            out = [];
            delivers = some msg;
            rest = none;
          })
          else ok (quiet s)

-- the READY, if it was decided on, and the delivery
unfoldable pub send_ready : ℕ → Bool → BrachaMessage → BrachaOptimized → Result Turn
unfolding deliver
send_ready now true msg s = ok (
    bracha "ready" msg (some (deliver_check msg))
      (record s { ledger = mark_ready msg.msg_id s.ledger }))
send_ready now false msg s = deliver now msg s

-- the echo of a node of the committee that is not to send READY
unfoldable pub send_implied : ℕ → Bool → Bool → BrachaMessage → BrachaOptimized → Result Turn
unfolding send_ready
send_implied now will eligible msg s =
    if not will && eligible
    then ok (bracha "echo" (with_phase "echo" msg) (some (deliver_check msg)) s)
    else send_ready now will msg s

unfoldable pub imply_new : ℕ → Bool → Bool → BrachaMessage → BrachaOptimized → Result Turn
unfolding send_ready send_implied
imply_new now will true msg s = send_ready now will msg s
imply_new now will false msg s = do
  l ← add_echo msg.msg_id s.id (mark_echo msg.msg_id s.ledger)
  send_implied now will (should_generate_echo msg.sender s) msg (record s { ledger = l })

-- The echo that comes with a READY is counted, and sent only where no READY is.
unfoldable pub imply_echo : ℕ → Bool → BrachaMessage → BrachaOptimized → Result Turn
unfolding imply_new
imply_echo now will msg s = do
  sent ← index s.ledger.sent_echo msg.msg_id
  imply_new now will sent msg s

unfoldable pub ready : ℕ → String → BrachaMessage → BrachaOptimized → Result Turn
unfolding open_message imply_echo send_ready
ready now src msg s₀ =
    let m = msg.msg_id in
    let s = open_message m s₀ in
    do
      l ← add_ready m src s.ledger
      sent ← index l.sent_ready m
      voters ← index l.readys m
      let s' = record s { ledger = l } in
          let will =
            not sent && leb (s.f + 1) (length voters) && should_generate_ready msg.sender s in
          if s.enable_echo_amplification
          then imply_echo now will msg s'
          else send_ready now will msg s'

unfoldable pub dispatch : ℕ → String → BrachaMessage → BrachaOptimized → Result Turn
unfolding send echo ready
dispatch now src msg s =
    if msg.phase == "send"
    then send msg s
    else if msg.phase == "echo"
    then echo src msg s
    else if msg.phase == "ready"
    then ready now src msg s
    else ok (quiet s)

-- The payload is converted as in bracha.py, and raises alike; the node is counted to have received it.
unfoldable pub dolev_deliver : ℕ → String → Payload → BrachaOptimized → Result Turn
unfolding dispatch message_of
dolev_deliver now src payload s = do
  msg ← message_of payload
  dispatch now src msg (record s { messages_received = s.messages_received + 1 })
