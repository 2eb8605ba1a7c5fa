-- ===== src/Optimized/Start.antt =====
-- distbench-py/distbench/algorithms/bracha_optimized.py: `on_start`, and the event loop that runs a
-- coroutine on. The set-up of the logger and of the Dolev child is left out.
use distributed_algo.Prelude.{
  ℕ, ◌+◌, String, List, [], ◌∷◌, ◌&&◌, none, some, eq_string, ◌==◌, contains, add, ltb,
  if◌then◌else◌, Result, ok,
}
use distributed_algo.Bracha.Message.{BrachaMessage}
use distributed_algo.Optimized.Node.{
  BrachaOptimized, should_generate_echo, to_peer, spoof, Task, start_round, start_sends, start_sent,
  start_echo, ready_check, deliver_check, Turn, quiet, bracha,
}
use distributed_algo.Optimized.Handlers.{open_message, generate_echo, trigger_ready, deliver}

module _ (uuid : String) (greeting : ℕ → String) where
  -- the head of the loop; single-hop sending sleeps for a second first
  unfoldable pub begin_round : ℕ → BrachaOptimized → Turn
  unfolding open_message
  begin_round i s =
      let msg : BrachaMessage = record {
        phase = "send";
        sender = s.id;
        msg_id = uuid;
        payload = greeting i;
      } in
      let s' = open_message uuid s in
      if s.is_sender && ltb i s.num_messages
      then (if s.enable_single_hop_send
          then (record {
            node = s';
            out = [];
            delivers = none;
            rest = some (start_sends msg i s.peers);
          })
          else bracha "send" msg (some (start_echo msg i)) s')
      else quiet s

  unfoldable pub own_echo : BrachaMessage → ℕ → BrachaOptimized → Result Turn
  unfolding begin_round generate_echo
  own_echo msg i s =
      let s' = record s { seen_messages = add msg.msg_id s.seen_messages } in
      if should_generate_echo s.id s
      then generate_echo msg (some (start_round (i + 1))) s'
      else ok (begin_round (i + 1) s')

  -- `await peer.send(msg)` for the neighbours among the peers
  unfoldable pub send_hops : BrachaMessage → ℕ → List String → BrachaOptimized → Result Turn
  unfolding own_echo
  send_hops msg i [] s = own_echo msg i s
  send_hops msg i (p ∷ peers) s =
      let rest = send_hops msg i peers s in
      if contains s.neighbours p
      then ok (record {
        node = s;
        out = to_peer p msg ∷ [];
        delivers = none;
        rest = some (start_sent msg i peers);
      })
      else rest

  unfoldable pub on_start : ℕ → BrachaOptimized → Turn
  unfolding begin_round
  on_start now s =
      let s' = record s { start_time = now } in
      if s.behavior_mode == "BYZANTINE_SPOOF"
      then (record { node = s'; out = spoof ∷ []; delivers = none; rest = some (start_round 0) })
      else begin_round 0 s'

  unfoldable pub resume : ℕ → Task → BrachaOptimized → Result Turn
  unfolding begin_round send_hops own_echo trigger_ready deliver
  resume now (start_round i) s = ok (begin_round i s)
  resume now (start_sends msg i peers) s = send_hops msg i peers s
  resume now (start_sent msg i peers) s =
      send_hops msg i peers (record s { messages_sent = s.messages_sent + 1 })
  resume now (start_echo msg i) s = own_echo msg i s
  resume now (ready_check msg) s = trigger_ready msg s
  resume now (deliver_check msg) s = deliver now msg s
