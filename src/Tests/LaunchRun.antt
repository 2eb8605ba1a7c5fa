-- ===== src/Tests/LaunchRun.antt =====
-- Runs of main.py on a configuration of two nodes.
use distributed_algo.Prelude.{
  ℕ, String, List, [], ◌∷◌, eq_string, true, Dict, get, has, put, index, contains, erase, add,
  sorted, insert_sorted, IsDistinct, ok, raises, attribute_error, ◌≡◌, refl, IfOk, Returns,
}
use distributed_algo.Transport.Local.{LocalAddress, wire, set_current_node, init}
use distributed_algo.Launch.Config.{text, other_key, Loaded, mapping, load_config, keys}
use distributed_algo.Launch.Mappings.{
  Mappings, build_tcp_mappings, EachNumbered, build_tcp_mappings-EachNumbered,
}
use distributed_algo.Launch.Nodes.{Registry, community_of}
use distributed_algo.Launch.Offline.{
  eq_local_address, OfflineNode, local_addresses, make_nodes, assemble,
}
use distributed_algo.Launch.Together.{Together, assemble-Together}
use distributed_algo.Launch.Tcp.{run_local}
use distributed_algo.Launch.Placed.{EachAt, run_local-EachAt}

program : Unit {0}
unfolding load_config build_tcp_mappings make_nodes assemble run_local get has put index contains
    erase add sorted insert_sorted IsDistinct keys
program = tt

-- an algorithm that takes its configuration for its instance
abbrev registry : Registry (List String) (Dict String (List String))
registry = ("echo", λ config. ok config) ∷ []

abbrev two : Dict String (Dict String (List String))
two = ("n2", ("neighbours", "n1" ∷ []) ∷ []) ∷ ("n1", ("items", []) ∷ []) ∷ []

abbrev file : Loaded (Dict String (List String))
file = mapping (
    (text "_all", [])
    ∷ (text "n2", ("neighbours", "n1" ∷ []) ∷ [])
    ∷ (text "n1", ("items", []) ∷ [])
    ∷ [])

file_lem : load_config file ≡ ok two
unfolding program
file_lem = refl

distinct : IsDistinct (keys two)
unfolding program
distinct = (refl, (refl, tt))

fresh_ids : IsDistinct {A = String} ("n2" ∷ "n1" ∷ [])
unfolding program
fresh_ids = (refl, (refl, tt))

-- a key that is a number has no `startswith`
number_key : load_config (mapping ((other_key 1, tt) ∷ [])) ≡ raises attribute_error
unfolding program
number_key = refl

build_tcp_mappings-EachNumbered_example :
    Returns
      (build_tcp_mappings 8000 true ("n2" ∷ "n1" ∷ []))
      (EachNumbered 8000 true 0 (sorted ("n2" ∷ "n1" ∷ [])))
build_tcp_mappings-EachNumbered_example =
    build_tcp_mappings-EachNumbered 8000 true ("n2" ∷ "n1" ∷ []) fresh_ids

run_local-EachAt_example :
    IfOk
      (λ nodes.
        (m : Mappings) × EachNumbered 8000 true 0 (sorted (keys two)) m
        × EachAt (λ a. a) 8000 (keys two) m two nodes)
      (run_local registry (λ a. a) (λ v. v) "echo" (0, 0) 8000 file "json")
run_local-EachAt_example =
    run_local-EachAt registry (λ a. a) (λ v. v) "echo" (0, 0) 8000 file two "json" file_lem distinct

abbrev made : ℕ × ℕ → List (OfflineNode LocalAddress (Dict String (List String)))
made latency =
    record {
      node_id = "n2";
      transport = wire latency (set_current_node "n2" init);
      community =
          community_of (λ a. a) (λ v. v) (keys two) "n2" (("neighbours", "n1" ∷ []) ∷ [])
            (local_addresses (keys two));
      algorithm = [];
    }
    ∷ record {
      node_id = "n1";
      transport = wire latency (set_current_node "n1" init);
      community =
          community_of (λ a. a) (λ v. v) (keys two) "n1" (("items", []) ∷ [])
            (local_addresses (keys two));
      algorithm = ("items", []) ∷ [];
    }
    ∷ []

made_lem : make_nodes registry (λ a. a) (λ v. v) "echo" (0, 0) (keys two) two ≡ ok (made (0, 0))
unfolding program
made_lem = refl

assemble-Together_example :
    Returns (assemble registry (λ a. a) (λ v. v) "echo" (0, 0) two) (Together (keys two) two)
assemble-Together_example =
    assemble-Together registry (λ a. a) (λ v. v) "echo" (0, 0) "n2" (("neighbours", "n1" ∷ []) ∷ [])
      (("n1", ("items", []) ∷ []) ∷ []) (made (0, 0)) made_lem

made_slow :
    make_nodes registry (λ a. a) (λ v. v) "echo" (10, 50) (keys two) two ≡ ok (made (10, 50))
unfolding program
made_slow = refl

-- offline mode with a latency does not get to its nodes
offline_latency_fails :
    assemble registry (λ a. a) (λ v. v) "echo" (10, 50) two ≡ raises attribute_error
offline_latency_fails =
    assemble-Together registry (λ a. a) (λ v. v) "echo" (10, 50) "n2"
      (("neighbours", "n1" ∷ []) ∷ []) (("n1", ("items", []) ∷ []) ∷ []) (made (10, 50)) made_slow
