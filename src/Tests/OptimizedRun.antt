-- ===== src/Tests/OptimizedRun.antt =====
-- Nodes of bracha_optimized.py, with and without a place in the committees.
use distributed_algo.Prelude.{
  ◌+◌, ◌*◌, ok, IfOk-ok, [], ◌∷◌, true, false, ◌≡◌, refl, eq_string, contains, add, sorted,
  insert_sorted, index_of, Returns, has, get_or, index, put,
}
use distributed_algo.Bracha.Message.{BrachaMessage}
use distributed_algo.Bracha.Ledger.{empty_ledger}
use distributed_algo.Bracha.Slot.{slot, IsAligned}
use distributed_algo.Optimized.Committee.{collect, calculate_eligible_nodes}
use distributed_algo.Optimized.Node.{
  BrachaOptimized, Config, init, should_generate_echo, should_generate_ready,
}
use distributed_algo.Optimized.Handlers.{echo, ready}
use distributed_algo.Optimized.Expected.{AfterEcho, AfterImplied, echo_due, ready_due}
use distributed_algo.Optimized.Effect.{echo-Does, ready-Does, init-threshold}
use distributed_algo.Optimized.Outsider.{KeepsReady, outsider-silent}

program : Unit {0}
unfolding contains add sorted insert_sorted index_of has get_or index put collect
    calculate_eligible_nodes should_generate_echo should_generate_ready slot
program = tt

-- `c` of the three nodes `a`, `b` and `c`, where no node may fail and the flag is off
abbrev node_c : BrachaOptimized
node_c = record {
  id = "c";
  peers = "a" ∷ "b" ∷ [];
  neighbours = "a" ∷ "b" ∷ [];
  is_sender = false;
  f = 0;
  enable_echo_amplification = true;
  enable_single_hop_send = true;
  enable_reduced_messages = false;
  num_messages = 1;
  behavior_mode = "HONEST";
  total = 3;
  seen_messages = [];
  ledger = empty_ledger;
  ready_threshold = 2;
  deliver_threshold = 1;
  start_time = 0;
  delivery_times = [];
  messages_sent = 0;
  messages_received = 0;
  bracha_send_count = 0;
  bracha_echo_count = 0;
  bracha_ready_count = 0;
  expected_messages = [];
  terminated = false;
}

-- it is what the constructor makes
abbrev config : Config
config = record {
  is_sender = false;
  f = 0;
  enable_echo_amplification = true;
  enable_single_hop_send = true;
  enable_reduced_messages = false;
  num_messages = 1;
  behavior_mode = "HONEST";
}

made : init config "c" ("a" ∷ "b" ∷ []) ("a" ∷ "b" ∷ []) 2 ≡ ok node_c
unfolding init
made = refl

abbrev echo_of_a : BrachaMessage
echo_of_a = record { phase = "echo"; sender = "a"; msg_id = "x"; payload = "hello" }

empty-IsAligned : IsAligned node_c.ledger
unfolding program
empty-IsAligned = record {
  readys = λ j. refl;
  sent_echo = λ j. refl;
  sent_ready = λ j. refl;
  delivered = λ j. refl;
}

committee_of_a : calculate_eligible_nodes "c" ("a" ∷ "b" ∷ []) "a" 1 ≡ "b" ∷ []
unfolding program
committee_of_a = refl

outsider-silent_example :
    Returns (echo "b" echo_of_a node_c) (KeepsReady echo_of_a (slot empty_ledger "x"))
    × Returns (ready 3 "b" echo_of_a node_c) (KeepsReady echo_of_a (slot empty_ledger "x"))
unfolding program
outsider-silent_example = outsider-silent 3 "b" echo_of_a node_c empty-IsAligned refl

echo-Does_example :
    let τ = record (slot empty_ledger "x") { echos = "b" ∷ [] } in
    Returns
      (echo "b" echo_of_a node_c)
      (AfterEcho echo_of_a node_c empty_ledger (echo_due echo_of_a node_c τ) τ)
unfolding program
echo-Does_example = echo-Does echo_of_a node_c empty-IsAligned "b"

ready-Does_example :
    let τ = record (slot empty_ledger "x") { readys = "b" ∷ [] } in
    Returns (ready 3 "b" echo_of_a node_c) (
      AfterImplied echo_of_a
        (record node_c { deliver_threshold = 2 * 0 + 1 })
        empty_ledger
        (ready_due echo_of_a node_c τ)
        false
        τ)
unfolding program
ready-Does_example = ready-Does echo_of_a node_c empty-IsAligned 3 "b" (
    IfOk-ok (λ s. s.deliver_threshold ≡ 2 * s.f + 1) _ node_c
      (init-threshold config "c" ("a" ∷ "b" ∷ []) ("a" ∷ "b" ∷ []) 2) made)
