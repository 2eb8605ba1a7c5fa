-- ===== src/Optimized/Node.antt =====
-- distbench-py/distbench/algorithms/bracha_optimized.py: the state of a node, and what it hands to
-- its peers and to its Dolev child. The ledger is that of bracha.py.
use distributed_algo.Prelude.{
  ℕ, ◌+◌, ◌*◌, String, List, [], ◌∷◌, Bool, false, not, ◌&&◌, Option, none, eq_string, ◌==◌, Dict,
  add, contains, if◌then◌else◌, Result, ok, raises, value_error,
}
use distributed_algo.Bracha.Message.{BrachaMessage, echo_quorum, ready_quorum}
use distributed_algo.Bracha.Ledger.{Ledger, empty_ledger}
use distributed_algo.Optimized.Committee.{calculate_eligible_nodes}

pub record BrachaOptimized : Type 0 where
  pub id : String
  -- `str(p.peer_id)` for each peer, and `community.neighbours`
  pub peers : List String
  pub neighbours : List String
  pub is_sender : Bool
  pub f : ℕ
  pub enable_echo_amplification : Bool
  pub enable_single_hop_send : Bool
  pub enable_reduced_messages : Bool
  pub num_messages : ℕ
  pub behavior_mode : String
  pub total : ℕ
  pub seen_messages : List String
  pub ledger : Ledger
  pub ready_threshold : ℕ
  pub deliver_threshold : ℕ
  pub start_time : ℕ
  pub delivery_times : Dict String ℕ
  pub messages_sent : ℕ
  pub messages_received : ℕ
  pub bracha_send_count : ℕ
  pub bracha_echo_count : ℕ
  pub bracha_ready_count : ℕ
  pub expected_messages : List String
  pub terminated : Bool

-- what the configuration sets
pub record Config : Type 0 where
  pub is_sender : Bool
  pub f : ℕ
  pub enable_echo_amplification : Bool
  pub enable_single_hop_send : Bool
  pub enable_reduced_messages : Bool
  pub num_messages : ℕ
  pub behavior_mode : String

-- `__init__`, which refuses single-hop SEND without echo amplification
unfoldable pub init : Config → String → List String → List String → ℕ → Result BrachaOptimized
init c id peers neighbours n =
    if c.enable_single_hop_send && not c.enable_echo_amplification
    then raises value_error
    else ok (record {
      id = id;
      peers = peers;
      neighbours = neighbours;
      is_sender = c.is_sender;
      f = c.f;
      enable_echo_amplification = c.enable_echo_amplification;
      enable_single_hop_send = c.enable_single_hop_send;
      enable_reduced_messages = c.enable_reduced_messages;
      num_messages = c.num_messages;
      behavior_mode = c.behavior_mode;
      total = n + 1;
      seen_messages = [];
      ledger = empty_ledger;
      ready_threshold = echo_quorum (n + 1) c.f;
      deliver_threshold = ready_quorum c.f;
      start_time = 0;
      delivery_times = [];
      messages_sent = 0;
      messages_received = 0;
      bracha_send_count = 0;
      bracha_echo_count = 0;
      bracha_ready_count = 0;
      expected_messages = [];
      terminated = false;
    })

unfoldable pub should_generate_echo : String → BrachaOptimized → Bool
should_generate_echo sender s =
    contains (calculate_eligible_nodes s.id s.peers sender (echo_quorum s.total s.f + s.f)) s.id

unfoldable pub should_generate_ready : String → BrachaOptimized → Bool
should_generate_ready sender s =
    contains (calculate_eligible_nodes s.id s.peers sender (2 * s.f + 1 + s.f)) s.id

unfoldable pub register_message : String → BrachaOptimized → BrachaOptimized
register_message m s = record s { expected_messages = add m s.expected_messages }

-- What a turn hands over: a message to the Dolev child, a SEND to one peer, the call of
-- `trigger_byzantine_spoof`.
pub data Out : Type 0 where
  by_dolev : BrachaMessage → Out
  to_peer : String → BrachaMessage → Out
  spoof : Out

-- What is left of a coroutine behind an `await`.
pub data Task : Type 0 where
  start_round : (i : ℕ) → Task
  start_sends : BrachaMessage → (i : ℕ) → (peers : List String) → Task
  start_sent : BrachaMessage → (i : ℕ) → (peers : List String) → Task
  start_echo : BrachaMessage → (i : ℕ) → Task
  ready_check : BrachaMessage → Task
  deliver_check : BrachaMessage → Task

pub record Turn : Type 0 where
  pub node : BrachaOptimized
  pub out : List Out
  pub delivers : Option BrachaMessage
  pub rest : Option Task

abbrev pub quiet : BrachaOptimized → Turn
quiet s = record { node = s; out = []; delivers = none; rest = none }

unfoldable pub count_phase : String → BrachaOptimized → BrachaOptimized
count_phase method s =
    if method == "send"
    then record s { bracha_send_count = s.bracha_send_count + 1 }
    else if method == "echo"
    then record s { bracha_echo_count = s.bracha_echo_count + 1 }
    else if method == "ready"
    then record s { bracha_ready_count = s.bracha_ready_count + 1 }
    else s

-- `await self.bracha(method, msg)`, with what comes behind it
unfoldable pub bracha : String → BrachaMessage → Option Task → BrachaOptimized → Turn
unfolding count_phase
bracha method msg rest s = record {
  node = count_phase method s;
  out = by_dolev msg ∷ [];
  delivers = none;
  rest = rest;
}
