-- ===== src/Naive/Node.antt =====
-- distbench-py/distbench/algorithms/dolev_naive.py: the state and the handlers. Each `await` of a
-- call of a peer gives the event loop back, so a handler is a chain of turns.
use distributed_algo.Prelude.{
  ℕ, ◌+◌, ◌≤◌, String, List, [], ◌∷◌, ◌++◌, true, false, not, ◌&&◌, ◌≡◌, arith, inl, inr, Option,
  none, some, eq_string, eq_list, Dict, get_or, has, put, contains, add, length, if◌then◌else◌,
  Among, Bool-cases,
}
use distributed_algo.Dolev.State.{DMsg, Metric}
use distributed_algo.Naive.Paths.{dist_paths, dist_paths-Avoids, Avoids}

pub record DolevNaive : Type 0 where
  -- `self.id()`, and `str(p.peer_id)` for each peer
  pub id : String
  pub peers : List String
  pub neighbour_ids : List String
  pub f : ℕ
  pub paths : Dict String (List (List String))
  pub delivered : List String
  pub message_metrics : Dict String Metric
  pub total_messages_sent : ℕ
  pub messages_forwarded : ℕ

-- `f` is the constant `GLOBAL_F`
unfoldable pub init : String → List String → DolevNaive
init id peers = record {
  id = id;
  peers = peers;
  neighbour_ids = [];
  f = 1;
  paths = [];
  delivered = [];
  message_metrics = [];
  total_messages_sent = 0;
  messages_forwarded = 0;
}

-- the loops that wait for the call of a peer
pub data Task (P : Type 0) : Type 0 where
  broadcasting : DMsg P → (peers : List String) → Task P
  forwarding : DMsg P → (new_path : List String) → (peers : List String) → Task P

pub record Turn (P : Type 0) : Type 0 where
  pub node : DolevNaive
  pub sends : Option (String × DMsg P)
  pub rest : Option (Task P)

abbrev pub done : {P : Type 0} → DolevNaive → Turn P
done s = record { node = s; sends = none; rest = none }

abbrev no_metric : Metric
no_metric = record { broadcast_time = none; delivery_time = none }

abbrev pub sent_now : ℕ → Metric
sent_now now = record { broadcast_time = some now; delivery_time = none }

unfoldable pub record_path : String → List String → DolevNaive → DolevNaive
record_path m new_path s =
    let known = get_or s.paths m [] in
    record s {
      paths = put s.paths m (if contains known new_path then known else known ++ new_path ∷ []);
    }

-- the entry of the metrics was made by `dolev`
unfoldable pub my_deliver : {P : Type 0} → ℕ → DMsg P → DolevNaive → DolevNaive
my_deliver now msg s =
    let m = msg.msg_id in
    if contains s.delivered m
    then s
    else if dist_paths s.f s.id (get_or s.paths m []) msg.source
    then (record s {
      delivered = add m s.delivered;
      message_metrics =
          put s.message_metrics m
            (record (get_or s.message_metrics m no_metric) { delivery_time = some now });
    })
    else s

module _ {P : Type 0} (now : ℕ) where
  unfoldable pub forward : DMsg P → List String → List String → DolevNaive → Turn P
  unfolding my_deliver
  forward msg new_path [] s = done (my_deliver now msg s)
  forward msg new_path (p ∷ peers) s =
      let rest = forward msg new_path peers s in
      if contains s.neighbour_ids p && not (contains new_path p)
      then (record {
        node = s;
        sends = some (p, record msg { path = new_path });
        rest = some (forwarding msg new_path peers);
      })
      else rest

  unfoldable pub dolev : String → DMsg P → DolevNaive → Turn P
  unfolding forward record_path
  dolev src msg s =
      let m = msg.msg_id in
      if not (contains s.neighbour_ids src)
      then done s
      else (let opened =
            if has s.message_metrics m
            then s
            else (record s { message_metrics = put s.message_metrics m (sent_now now) }) in
          let new_path = msg.path ++ src ∷ [] in
          forward msg new_path s.peers (record_path m new_path opened))

  unfoldable pub send_each : DMsg P → List String → DolevNaive → Turn P
  send_each msg [] s = done s
  send_each msg (p ∷ peers) s =
      let rest = send_each msg peers s in
      if contains s.neighbour_ids p
      then (record { node = s; sends = some (p, msg); rest = some (broadcasting msg peers) })
      else rest

  unfoldable pub broadcast_message : (uuid : String) → (payload : P) → DolevNaive → Turn P
  unfolding send_each
  broadcast_message uuid payload s =
      send_each (record { msg_id = uuid; source = s.id; payload = payload; path = [] }) s.peers
        (record s { message_metrics = put s.message_metrics uuid (sent_now now) })

  unfoldable pub resume : Task P → DolevNaive → Turn P
  unfolding send_each forward
  resume (broadcasting msg peers) s =
      send_each msg peers (record s { total_messages_sent = s.total_messages_sent + 1 })
  resume (forwarding msg new_path peers) s = forward msg new_path peers (record s {
    messages_forwarded = s.messages_forwarded + 1;
    total_messages_sent = s.total_messages_sent + 1;
  })

-- A message id that `my_deliver` newly delivers has, whichever f nodes are bad, a recorded path that
-- has none of them between its source and the node.
pub my_deliver-Avoids :
    {P : Type 0} (now : ℕ) (msg : DMsg P) (s : DolevNaive) (bad : List String)
    → contains s.delivered msg.msg_id ≡ false
    → contains (my_deliver now msg s).delivered msg.msg_id ≡ true
    → length bad ≤ s.f
    → (path : List String) × Among path (get_or s.paths msg.msg_id [])
      × Avoids msg.source s.id bad path
unfolding my_deliver
my_deliver-Avoids now msg s bad old new few =
    elim (Bool-cases (dist_paths s.f s.id (get_or s.paths msg.msg_id []) msg.source)) [
      | inl h ↦ dist_paths-Avoids s.f s.id msg.source (get_or s.paths msg.msg_id []) bad h few
      | inr h ↦ absurd (ground arith)
    ]
