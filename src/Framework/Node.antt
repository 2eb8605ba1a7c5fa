-- ===== src/Framework/Node.antt =====
-- distbench-py/distbench/node.py: the state of a node, and the messages it handles. The algorithm is an
-- interface; `time.time()` is an argument.
pub mod Barrier
pub mod Wakeup
use distributed_algo.Prelude.{
  ℕ, ◌+◌, String, List, [], ◌∷◌, Bool, true, false, ◌&&◌, ◌||◌, Option, none, some, Eq, eq_string,
  all, map, length, if◌then◌else◌, Result, Exception, ok, raises, type_error,
}
use distributed_algo.Framework.Messages.{
  Bytes, Value, null, int, str, bin, arr, other, Values, nil, cons, truthy, MessageType, pubkey,
  started, finished, algorithm, Envelope, Msgpack, deserialize, serialize_pubkey, serialize_started,
  serialize_finished,
}
use distributed_algo.Framework.Community.{
  Community, NodeStatus, not_started, key_sharing, starting, running, stopping, terminated, values,
  set_status, statuses, add_key, has_all_keys, id_of,
}

-- `Algorithm`: the hooks that a node calls, on a state of its own; what a handler did before it
-- raised stays done. `on_start` runs up to its first await, then by turns until it has returned.
pub record Algorithm (S : Type 0) : Type 0 where
  pub handle : String → Value → Value → S → Result (Option Bytes) × S
  pub on_start : S → S
  pub on_start_returned : S → Bool
  pub turn : S → S
  pub on_exit : S → S

-- where the coroutine `_monitor` stands
pub data Monitor : Type 0 where
  looping sharing_keys awaiting_started in_on_start awaiting_change awaiting_finished exited :
      Monitor

pub record Node (A M S : Type 0) : Type 0 where
  pub id : String
  pub community : Community A M
  pub state : S
  pub status : NodeStatus
  pub status_changed : Bool
  pub monitor : Monitor
  pub public_key : Bytes
  pub start_time : Option ℕ
  pub end_time : Option ℕ
  pub messages_received : ℕ
  pub bytes_received : ℕ

-- `len(payload)`; the number of characters of a text is a parameter
unfoldable pub value_length : (String → ℕ) → Value → Result ℕ
value_length chars (str s) = ok (chars s)
value_length chars (bin b) = ok (length b)
value_length chars (arr vs) = ok (count vs)
  where
    count : Values → ℕ
    count nil = 0
    count (cons v vs) = count vs + 1
value_length chars v = raises type_error

abbrev pub is_null : Value → Bool
is_null null = true
is_null v = false

abbrev pub is_running : NodeStatus → Bool
is_running running = true
is_running s = false

abbrev pub is_terminated : NodeStatus → Bool
is_terminated terminated = true
is_terminated s = false

abbrev pub is_starting : NodeStatus → Bool
is_starting starting = true
is_starting s = false

abbrev pub is_stopping : NodeStatus → Bool
is_stopping stopping = true
is_stopping s = false

module _ {A M S : Type 0} where
  unfoldable pub init : String → Community A M → S → Bytes → Node A M S
  init id community state key = record {
    id = id;
    community = community;
    state = state;
    status = not_started;
    status_changed = false;
    monitor = looping;
    public_key = key;
    start_time = none;
    end_time = none;
    messages_received = 0;
    bytes_received = 0;
  }

  -- `_set_status`, which wakes the waiters
  unfoldable pub update_status : NodeStatus → Node A M S → Node A M S
  update_status st n = record n { status = st; status_changed = true }

  -- `all(s == RUNNING for s in statuses.values())`
  unfoldable pub all_running : Node A M S → Bool
  all_running n = all (λ e. is_running e.1) (statuses n.community)

  unfoldable pub all_terminated : Node A M S → Bool
  all_terminated n = all (λ e. is_terminated e.1) (statuses n.community)

  unfoldable pub mark_peer : String → NodeStatus → Node A M S → Node A M S
  mark_peer p st n = record n { community = set_status p st n.community }

  unfoldable pub hear_started : String → Node A M S → Node A M S
  unfolding mark_peer update_status
  hear_started p n =
      let n' = mark_peer p running n in
      if is_starting n'.status && all_running n' then update_status running n' else n'

  unfoldable pub hear_finished : String → Node A M S → Node A M S
  unfolding mark_peer update_status
  hear_finished p n =
      let n' = mark_peer p terminated n in
      if is_stopping n'.status && all_terminated n' then update_status terminated n' else n'

  unfoldable pub hear_pubkey : String → Value → Node A M S → Node A M S
  hear_pubkey p k n = if truthy k then record n { community = add_key p k n.community } else n

  -- an error of the algorithm is logged, and answered like no response
  unfoldable pub count_message :
      Algorithm S
      → String
      → Value
      → Value
      → Node A M S
      → Result ℕ
      → Result (Option Bytes) × Node A M S
  count_message alg p type_id payload n (raises x) =
      (raises x, record n { messages_received = n.messages_received + 1 })
  count_message alg p type_id payload n (ok size) =
      let (r, s) = alg.handle p type_id payload n.state in
      (
        elim r [ ok b ↦ ok b | raises x ↦ ok none ],
        record n {
          messages_received = n.messages_received + 1;
          bytes_received = n.bytes_received + size;
          state = s;
        },
      )

  unfoldable pub hear_algorithm :
      Algorithm S
      → (String → ℕ)
      → String
      → Value
      → Value
      → Node A M S
      → Result (Option Bytes) × Node A M S
  unfolding count_message
  hear_algorithm alg chars p type_id payload n =
      if is_null type_id || is_null payload
      then (ok none, n)
      else count_message alg p type_id payload n (value_length chars payload)

  unfoldable pub dispatch :
      Algorithm S
      → (String → ℕ)
      → String
      → MessageType
      → Envelope
      → Node A M S
      → Result (Option Bytes) × Node A M S
  unfolding hear_pubkey hear_started hear_finished hear_algorithm
  dispatch alg chars p pubkey e n = (ok none, hear_pubkey p e.payload n)
  dispatch alg chars p started e n = (ok none, hear_started p n)
  dispatch alg chars p finished e n = (ok none, hear_finished p n)
  dispatch alg chars p algorithm e n = hear_algorithm alg chars p e.type_id e.payload n

  -- a message that is malformed is logged and dropped
  unfoldable pub handle_from :
      Algorithm S
      → (String → ℕ)
      → String
      → Result Envelope
      → Node A M S
      → Result (Option Bytes) × Node A M S
  unfolding dispatch
  handle_from alg chars p (ok e) n = dispatch alg chars p e.msg_type e n
  handle_from alg chars p (raises x) n = (ok none, n)

  -- a message of an unknown address is logged and dropped
  unfoldable pub handle_sender :
      Msgpack
      → Algorithm S
      → (String → ℕ)
      → Option String
      → Bytes
      → Node A M S
      → Result (Option Bytes) × Node A M S
  unfolding handle_from
  handle_sender msgpack alg chars none msg n = (ok none, n)
  handle_sender msgpack alg chars (some p) msg n =
      handle_from alg chars p (deserialize msgpack msg) n

  unfoldable pub handle :
      ⦃eq : Eq A⦄
      → Msgpack
      → Algorithm S
      → (String → ℕ)
      → A
      → Bytes
      → Node A M S
      → Result (Option Bytes) × Node A M S
  unfolding handle_sender
  handle msgpack alg chars addr msg n =
      handle_sender msgpack alg chars (id_of addr n.community) msg n
