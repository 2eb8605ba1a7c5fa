-- ===== src/Tests/PathsRun.antt =====
-- Broadcasts of dolev.py, and a node of dolev_naive.py that has heard a message on two paths.
use distributed_algo.Prelude.{
  ℕ, String, List, [], ◌∷◌, true, false, ◌≡◌, refl, some, eq_string, contains, add, get_or, put,
  sorted, insert_sorted, Among, arith,
}
use distributed_algo.Dolev.State.{DMsg, Dolev, init, stamp_delivery}
use distributed_algo.Dolev.Broadcast.{
  Calls, IsFirstHalf, deliver_local, start_metric, targets_of, send_each, broadcast_message,
  broadcast_message-Calls,
}
use distributed_algo.Naive.Paths.{internal, disjoint, disjoint_of_all, choose, dist_paths, Avoids}
use distributed_algo.Naive.Node.{DolevNaive, my_deliver, my_deliver-Avoids}

program : Unit {0}
unfolding contains add get_or put sorted insert_sorted init stamp_delivery deliver_local
    start_metric targets_of send_each broadcast_message internal disjoint disjoint_of_all choose
    dist_paths my_deliver
program = tt

abbrev selective : Dolev
selective = record (init "m" ("p" ∷ "q" ∷ "s" ∷ []) false [] "BYZANTINE_SELECTIVE" 1) {
  neighbour_ids = "q" ∷ "p" ∷ [];
}

abbrev own : DMsg ℕ
own = record { msg_id = "x"; source = "m"; payload = 5; path = [] }

-- only `p`, the first half of `p` and `q`, is called
selective_calls_p : (broadcast_message 3 "x" 5 selective).sends ≡ some ("p", own)
unfolding program
selective_calls_p = refl

broadcast_message-Calls_example :
    let s' = deliver_local 3 "x" (start_metric 3 "x" selective) in
    Calls s' own ("p" ∷ []) ("p" ∷ []) (broadcast_message 3 "x" 5 selective)
    × (contains s'.delivered "x" ≡ true)
    × IsFirstHalf ("p" ∷ []) selective.neighbour_ids
unfolding program
broadcast_message-Calls_example = broadcast_message-Calls 3 "x" 5 selective

abbrev two_paths : List (List String)
two_paths = ("s" ∷ "p" ∷ []) ∷ ("s" ∷ "q" ∷ []) ∷ []

abbrev naive : DolevNaive
naive = record {
  id = "m";
  peers = "p" ∷ "q" ∷ "s" ∷ [];
  neighbour_ids = "p" ∷ "q" ∷ [];
  f = 1;
  paths = ("x", two_paths) ∷ [];
  delivered = [];
  message_metrics = [];
  total_messages_sent = 0;
  messages_forwarded = 0;
}

abbrev from_s : DMsg ℕ
from_s = record { msg_id = "x"; source = "s"; payload = 5; path = "s" ∷ [] }

my_deliver-Avoids_example :
    (path : List String) × Among path two_paths × Avoids "s" "m" ("p" ∷ []) path
unfolding program
my_deliver-Avoids_example = my_deliver-Avoids 3 from_s naive ("p" ∷ []) refl refl (omega arith)
