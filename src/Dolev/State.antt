-- ===== src/Dolev/State.antt =====
-- distbench-py/distbench/algorithms/dolev.py: the message, and the state of a node. The payload is
-- any type; networkx, which counts the disjoint paths, is a parameter.
use distributed_algo.Prelude.{
  ℕ, ◌+◌, String, List, [], Bool, Option, none, some, eq_string, Dict, get_or, has, put, add,
  if◌then◌else◌,
}

pub record DMsg (P : Type 0) : Type 0 where
  pub msg_id : String
  pub source : String
  pub payload : P
  pub path : List String

pub record Metric : Type 0 where
  pub broadcast_time : Option ℕ
  pub delivery_time : Option ℕ

pub record Dolev : Type 0 where
  -- `_safe_id()`, `str(p.peer_id)` for each peer in the order of the dictionary, whether there is a
  -- parent, and the neighbours that the community of the parent, or its own, knows
  pub me : String
  pub peers : List String
  pub has_parent : Bool
  pub community : List String
  pub behavior_mode : String
  pub f : ℕ
  pub neighbour_ids : List String
  pub paths : Dict String (List (List String))
  pub delivered : List String
  pub forwarded_empty : List String
  pub neighbour_delivered : Dict String (List String)
  pub message_metrics : Dict String Metric
  pub total_messages_sent : ℕ
  pub messages_forwarded : ℕ
  -- what the node has added to `messages_sent` of its parent
  pub parent_sent : ℕ

unfoldable pub init : String → List String → Bool → List String → String → ℕ → Dolev
init me peers has_parent community behavior_mode f = record {
  me = me;
  peers = peers;
  has_parent = has_parent;
  community = community;
  behavior_mode = behavior_mode;
  f = f;
  neighbour_ids = [];
  paths = [];
  delivered = [];
  forwarded_empty = [];
  neighbour_delivered = [];
  message_metrics = [];
  total_messages_sent = 0;
  messages_forwarded = 0;
  parent_sent = 0;
}

-- the neighbours are fetched from the community when they are first needed
unfoldable pub ensure_neighbours : Dolev → Dolev
ensure_neighbours s = elim s.neighbour_ids [ [] ↦ record s { neighbour_ids = s.community } | _ ↦ s ]

-- `neighbour_delivered.setdefault(msg_id, set()).add(node)`
unfoldable pub note_delivered : String → String → Dolev → Dolev
note_delivered m node s = record s {
  neighbour_delivered = put s.neighbour_delivered m (add node (get_or s.neighbour_delivered m []));
}

abbrev pub no_metric : Metric
no_metric = record { broadcast_time = none; delivery_time = none }

-- the entry of a message that is seen for the first time
unfoldable pub open_metric : ℕ → String → Dolev → Dolev
open_metric now m s = if has s.message_metrics m then s else (record s {
  message_metrics =
      put s.message_metrics m (record { broadcast_time = some now; delivery_time = none });
})

-- `message_metrics[msg_id]["delivery_time"] = time.time()`; the coroutine has made the entry
unfoldable pub stamp_delivery : ℕ → String → Dolev → Dolev
stamp_delivery now m s = record s {
  message_metrics =
      put s.message_metrics m
        (record (get_or s.message_metrics m no_metric) { delivery_time = some now });
}

unfoldable pub count_parent : Dolev → Dolev
count_parent s = if s.has_parent then record s { parent_sent = s.parent_sent + 1 } else s

-- the three counters behind a forwarded message
unfoldable pub count_forward : Dolev → Dolev
unfolding count_parent
count_forward s = count_parent (record s {
  messages_forwarded = s.messages_forwarded + 1;
  total_messages_sent = s.total_messages_sent + 1;
})
