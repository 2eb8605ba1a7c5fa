-- ===== src/Framework/Lifecycle.antt =====
-- distbench-py/distbench/node.py: the life of a node. `_monitor` is a position and one round of its
-- loop; `start` begins it and ends it.
use distributed_algo.Prelude.{ℕ, Bool, false, Option, none, some, eq_string, if◌then◌else◌}
use distributed_algo.Framework.Messages.{
  Bytes, bin, Msgpack, serialize_pubkey, serialize_started, serialize_finished,
}
use distributed_algo.Framework.Community.{
  NodeStatus, not_started, key_sharing, starting, running, stopping, terminated, add_key,
  has_all_keys,
}
use distributed_algo.Framework.Node.{
  Node, Algorithm, Monitor, looping, sharing_keys, awaiting_started, in_on_start, awaiting_change,
  awaiting_finished, exited, update_status, all_running, all_terminated,
}

module _ {A M S : Type 0} where
  -- behind the call of `on_start`: when it returns, the wait begins in the same turn
  unfoldable pub settle : Bool → Node A M S → Node A M S
  settle returned n =
      if returned
      then record n { monitor = awaiting_change; status_changed = false }
      else record n { monitor = in_on_start }

  -- the top of the loop of `_monitor`: the branch for the status, up to its first wait; the message
  -- goes to every connection
  unfoldable pub monitor_branch :
      Msgpack → Algorithm S → ℕ → NodeStatus → Node A M S → Option Bytes × Node A M S
  unfolding settle
  monitor_branch msgpack alg now not_started n =
      (none, record n { monitor = awaiting_change; status_changed = false })
  monitor_branch msgpack alg now key_sharing n =
      (some (serialize_pubkey msgpack n.public_key), record n { monitor = sharing_keys })
  monitor_branch msgpack alg now starting n =
      (some (serialize_started msgpack), record n { monitor = awaiting_started })
  monitor_branch msgpack alg now running n =
      let state = alg.on_start n.state in
      (
        none,
        settle (alg.on_start_returned state) (record n {
          start_time = elim n.start_time [ none ↦ some now | some t ↦ some t ];
          state = state;
        }),
      )
  monitor_branch msgpack alg now stopping n = (
    some (serialize_finished msgpack),
    record n {
      monitor = awaiting_finished;
      end_time = elim n.end_time [ none ↦ some now | some t ↦ some t ];
    },
  )
  monitor_branch msgpack alg now terminated n =
      (none, record n { monitor = exited; state = alg.on_exit n.state })

  -- a wait for a barrier: a look at it, and the new status when it is passed
  unfoldable pub pass : Bool → NodeStatus → Node A M S → Option Bytes × Node A M S
  unfolding update_status
  pass barrier st n =
      if barrier then (none, record (update_status st n) { monitor = looping }) else (none, n)

  -- One round of `_monitor`: a branch, or one look of a wait at what it waits for.
  unfoldable pub monitor_at :
      Msgpack → Algorithm S → ℕ → Monitor → Node A M S → Option Bytes × Node A M S
  unfolding monitor_branch pass
  monitor_at msgpack alg now looping n = monitor_branch msgpack alg now n.status n
  monitor_at msgpack alg now sharing_keys n = pass (has_all_keys n.community) starting n
  monitor_at msgpack alg now awaiting_started n = pass (all_running n) running n
  monitor_at msgpack alg now in_on_start n = (none, n)
  monitor_at msgpack alg now awaiting_change n =
      if n.status_changed then (none, record n { monitor = looping }) else (none, n)
  monitor_at msgpack alg now awaiting_finished n = pass (all_terminated n) terminated n
  monitor_at msgpack alg now exited n = (none, n)

  unfoldable pub monitor_round : Msgpack → Algorithm S → ℕ → Node A M S → Option Bytes × Node A M S
  unfolding monitor_at
  monitor_round msgpack alg now n = monitor_at msgpack alg now n.monitor n

  -- `start`: the node stores its own key and begins to share; `STOPPING` when a task has ended
  unfoldable pub begin : Node A M S → Node A M S
  unfolding update_status
  begin n =
      update_status key_sharing
        (record n { community = add_key n.id (bin n.public_key) n.community })

  -- where the monitor stands behind a turn in which the state has become `state`
  unfoldable pub monitor_after : Algorithm S → Monitor → S → Node A M S → Node A M S
  unfolding settle
  monitor_after alg in_on_start state n = settle (alg.on_start_returned state) n
  monitor_after alg m state n = n

  -- a turn of the algorithm's coroutines, `on_start` among them
  unfoldable pub algorithm_turn : Algorithm S → Node A M S → Node A M S
  unfolding monitor_after
  algorithm_turn alg n =
      let state = alg.turn n.state in monitor_after alg n.monitor state (record n { state = state })

  unfoldable pub shut_down : Node A M S → Node A M S
  unfolding update_status
  shut_down n = update_status stopping n
