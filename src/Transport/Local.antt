-- ===== src/Transport/Local.antt =====
-- distbench-py/distbench/transport/offline.py and delayed.py: nodes of one process that call each
-- other, and the delay in front of a message. The server is of any type; the random number is a
-- parameter.
use distributed_algo.Prelude.{
  ℕ, ◌≤◌, ◌≡◌, arith, String, [], Option, none, some, Dict, has, put, index, Result, ok, raises,
  connection_error, value_error, if◌then◌else◌, ltb, nat_eqb, eq_string, ◌||◌, ◌>>=◌,
}
use distributed_algo.Framework.Messages.{Bytes}

pub record LocalAddress : Type 0 where
  pub node_id : String

pub record LocalTransport (T : Type 0) : Type 0 where
  pub servers : Dict String T
  pub current_node_id : Option String

pub record LocalConnection (T : Type 0) : Type 0 where
  pub server : T
  pub target_address : LocalAddress
  pub source_address : LocalAddress

module _ {T : Type 0} where
  -- `LocalTransport()`
  unfoldable pub init : LocalTransport T
  init = record { servers = []; current_node_id = none }

  unfoldable pub register_server : String → T → LocalTransport T → LocalTransport T
  register_server node_id server t = record t { servers = put t.servers node_id server }

  unfoldable pub set_current_node : String → LocalTransport T → LocalTransport T
  set_current_node node_id t = record t { current_node_id = some node_id }

  unfoldable pub connect_from :
      Option String → LocalAddress → Dict String T → Result (LocalConnection T)
  connect_from none target servers = raises connection_error
  connect_from (some node_id) target servers = do
    server ← index servers target.node_id
    ok (record {
      server = server;
      target_address = target;
      source_address = record { node_id = node_id };
    })

  unfoldable pub connect : LocalAddress → LocalTransport T → Result (LocalConnection T)
  unfolding connect_from
  connect target t =
      if has t.servers target.node_id
      then connect_from t.current_node_id target t.servers
      else raises connection_error

-- The context variable `current_node_id` beside the state of the program. It is put back only when
-- the handler returns.
module _ {S T : Type 0} (handle : T → S → LocalAddress → Bytes → S × Result (Option Bytes)) where
  unfoldable pub responded :
      (target before : Option String)
      → S × Result (Option Bytes)
      → (S × Option String) × Result Bytes
  responded target before (s, raises x) = ((s, target), raises x)
  responded target before (s, ok none) = ((s, before), ok [])
  responded target before (s, ok (some response)) = ((s, before), ok response)

  unfoldable pub send :
      LocalConnection T → Bytes → S × Option String → (S × Option String) × Result Bytes
  unfolding responded
  send c m (s, current) =
      responded (some c.target_address.node_id) current (handle c.server s c.source_address m)

-- `DelayedConnection._apply_delay`: the milliseconds slept for; `randint` raises on an empty range
unfoldable pub delay_ms : (randint : ℕ → ℕ → ℕ) → ℕ × ℕ → Result ℕ
delay_ms randint (low, high) =
    if nat_eqb low high
    then ok low
    else if ltb high low
    then raises value_error
    else ok (randint low high)

-- `DelayedConnection.send` and `cast`: the delay and the result of the connection below
unfoldable pub delayed : {R : Type 0} → (slept : Result ℕ) → Result R → Result (ℕ × R)
delayed slept inner = do ms ← slept; r ← inner; ok (ms, r)

-- If `randint` stays between its arguments, a delay is in the range that is given, which is not empty.
pub delay_ms-bounds :
    (randint : ℕ → ℕ → ℕ) (low high slept : ℕ)
    → ((a b : ℕ) → a ≤ b → (a ≤ randint a b) × (randint a b ≤ b))
    → delay_ms randint (low, high) ≡ ok slept
    → (low ≤ slept) × (slept ≤ high)
unfolding delay_ms
delay_ms-bounds randint low high slept draws e = ground (arith, draws low high)

-- `DelayedTransport(inner, range)`, or the transport itself where no latency is asked for
pub data Wire (T : Type 0) : Type 0 where
  direct : T → Wire T
  delays : T → ℕ × ℕ → Wire T

-- the transport of a node of main.py
unfoldable pub wire : {T : Type 0} → ℕ × ℕ → T → Wire T
wire (low, high) t = if ltb 0 low || ltb 0 high then delays t (low, high) else direct t

-- what is below a `DelayedTransport` connects
unfoldable pub inner : {T : Type 0} → Wire T → T
inner (direct t) = t
inner (delays t range) = t
