-- ===== src/Tests/DolevRun.antt =====
-- A node of dolev.py with three neighbours, under a count of disjoint paths that is given.
use distributed_algo.Prelude.{
  ℕ, String, List, [], ◌∷◌, true, false, ◌≡◌, refl, some, eq_string, eq_list, ◌==◌, contains, add,
  IsDistinct, get_or, has, put, length, keep,
}
use distributed_algo.Dolev.State.{
  DMsg, Dolev, init, ensure_neighbours, note_delivered, open_metric, stamp_delivery, count_parent,
  count_forward,
}
use distributed_algo.Dolev.Graph.{Networkx, edges_along, build_graph, dist_paths}
use distributed_algo.Dolev.Handlers.{
  finished, Task, forwarding, done, record_path, send_empties, empty_forward, after_parent,
  tell_parent, my_deliver, forward, continue_dolev, dolev, continue, resume,
}
use distributed_algo.Dolev.Soundness.{Sound}
use distributed_algo.Dolev.Soundness.Turns.{FromSource, dolev-Sound, resume-Sound}
use distributed_algo.Dolev.Machine.{
  Machine, took, Reach, initial, next, hear, run, ids, told-IsDistinct,
}
use distributed_algo.Dolev.Empties.{Ends, empties, my_deliver-Announced}

program : Unit {0}
unfolding contains add get_or has put init ensure_neighbours note_delivered open_metric
    stamp_delivery count_parent count_forward edges_along build_graph dist_paths record_path
    send_empties empty_forward after_parent tell_parent my_deliver forward continue_dolev dolev
    continue resume took
program = tt

-- As many disjoint paths as there are edges into the last node: right for these inputs.
abbrev counting : Networkx
counting = record {
  has_path = λ g s t. true;
  node_connectivity = λ g s t. some (length (keep (λ e. e.1 == t) g));
}

abbrev node : Dolev
node = init "m" ("p" ∷ "q" ∷ "s" ∷ []) true ("p" ∷ "q" ∷ []) "HONEST" 1

abbrev from_s : DMsg ℕ
from_s = record { msg_id = "x"; source = "s"; payload = 5; path = "s" ∷ [] }

record Ran : Type 0 where
  last : Machine ℕ
  reach : Reach counting node last

abbrev heard : Ran → String → DMsg ℕ → Ran
heard r src msg = record { last = _; reach = next r.reach (hear 3 src msg) }

first_task : (r : Ran) (tasks : List (Task ℕ)) → r.last.tasks ≡ tasks → Ran
first_task r [] e = r
first_task r (k ∷ ks) e = record { last = _; reach = next r.reach (run 3 [] ks k e) }

abbrev went_on : Ran → Ran
went_on r = first_task r r.last.tasks refl

-- One path is not enough; the second one, from `q`, is.
abbrev one_path : Ran
one_path = went_on (went_on (went_on (heard (record { last = _; reach = initial }) "p" from_s)))

abbrev two_paths : Ran
two_paths = went_on (heard one_path "q" from_s)

one_path_waits : (one_path.last.node.delivered ≡ []) × (one_path.last.told ≡ [])
unfolding program first_task
one_path_waits = (refl, refl)

two_paths_deliver :
    (two_paths.last.node.delivered ≡ "x" ∷ []) × (ids two_paths.last.told ≡ "x" ∷ [])
unfolding program first_task
two_paths_deliver = (refl, refl)

told-IsDistinct_example : IsDistinct (ids two_paths.last.told)
told-IsDistinct_example = told-IsDistinct counting node two_paths.reach

dolev-Sound_example :
    Sound counting (FromSource counting 3 "p" from_s node) node (dolev counting 3 "p" from_s node)
dolev-Sound_example = dolev-Sound counting 3 "p" from_s node

resume-Sound_example :
    Sound counting
      (λ m. ⊥)
      node
      (resume counting 3 (forwarding from_s ("s" ∷ "p" ∷ []) false ("q" ∷ [])) node)
resume-Sound_example =
    resume-Sound counting (λ m. ⊥) 3 (forwarding from_s ("s" ∷ "p" ∷ []) false ("q" ∷ [])) node

abbrev knows_p : Dolev
knows_p = record node { neighbour_ids = "p" ∷ [] }

my_deliver-Announced_example :
    (last : Dolev) × Ends counting 3
      (my_deliver counting 3 done finished false from_s knows_p)
      (empties counting 3 from_s ("p" ∷ []) knows_p.peers)
      last
    × (contains last.delivered "x" ≡ false)
    × (contains last.forwarded_empty "x" ≡ true)
unfolding program
my_deliver-Announced_example = my_deliver-Announced counting 3 from_s knows_p refl refl refl
