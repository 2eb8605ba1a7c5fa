-- ===== src/Tests/ConfigsRun.antt =====
-- Topologies and a file of generate_configs.py: the ring for 10 nodes and 1 fault, with 1 Byzantine node.
use distributed_algo.Prelude.{
  ℕ, zero, suc, ◌+◌, ◌*◌, String, List, [], ◌∷◌, true, false, none, some, get, put, index, contains,
  add, ok, ◌≡◌, refl, sym, ap, ◌∙◌, arith, Dict, ltb, leb, if◌then◌else◌, eq_string,
}
use Prim.Native.String.{◌++◌ as append, count}
use text.Mathlib.TextLemmas.{length-append}
use distributed_algo.Launch.Config.{set_of}
use distributed_algo.Scripts.{
  minus_mod, append_round, node_neighbours, neighbours_of, rounds, generate_ring_topology,
  NodeConfig, Chosen, names, byzantine_nodes, sender_nodes, payload_of, flags_of, node_config,
  entries, generate_config,
}
use distributed_algo.Scripts.Connected.{ring_distance, ring_links}
use distributed_algo.Scripts.Topology.{
  Edges, Attempt, TopologyType, draw_from, draw, regular_graph, generate_topology,
}
use distributed_algo.Scripts.Undirected.{joined, generate_topology-joined}
use distributed_algo.Scripts.Configured.{generate_config-node_config}

-- names in unary
abbrev node_name : ℕ → String
node_name zero = "n"
node_name (suc i) = append "n" (node_name i)

count-node_name : (i : ℕ) → count (node_name i) ≡ suc i
count-node_name zero = refl
count-node_name (suc i) = omega (arith, length-append "n" (node_name i), count-node_name i)

node_name-injective : (i j : ℕ) → node_name i ≡ node_name j → i ≡ j
node_name-injective i j e =
    let same : suc i ≡ suc j =
      sym (count-node_name i) ∙ ap (λ (s : String). count s) e ∙ count-node_name j in
    omega (arith, same)

program : Unit {0}
unfolding minus_mod append_round node_neighbours neighbours_of rounds generate_ring_topology names
    byzantine_nodes sender_nodes payload_of flags_of node_config entries generate_config set_of add
    contains get put index ring_distance ring_links
program = tt

-- node 0 has a link to node 2, which has none back
one_way : (ring_links 10 3 0 2 ≡ true) × (ring_links 10 3 2 0 ≡ false)
unfolding program
one_way = (refl, refl)

generate_config-node_config_example :
    (config : Dict String (NodeConfig ℕ)) × (c : NodeConfig ℕ) × (generate_config node_name 10 1 1 1
        Chosen.bracha "BYZANTINE_SILENT" none
      ≡ ok config)
    × (get config (node_name 9) ≡ some c)
    × (c.port ≡ 10000 + 9)
    × (c.is_sender ≡ ltb 9 1)
    × (c.behavior_mode ≡ (if leb 10 (9 + 1) then "BYZANTINE_SILENT" else "HONEST"))
    × (contains c.neighbours (node_name 8) ≡ ring_links 10 (2 * 1 + 1) 9 8)
generate_config-node_config_example =
    generate_config-node_config node_name node_name-injective 10 1 1 1 Chosen.bracha
      "BYZANTINE_SILENT" none 9 8 (omega arith) (omega arith) (omega arith)

-- The first attempt fails, the second graph is not connected, and the third is a triangle.
abbrev attempts : ℕ → Attempt
attempts zero = Attempt.network_error
attempts (suc zero) = Attempt.drawn [] false
attempts k = Attempt.drawn ((0, 1) ∷ (1, 2) ∷ (2, 0) ∷ []) true

abbrev triangle : Edges
triangle = regular_graph 3 0 [] attempts

generate_topology-joined_example :
    (t : Dict String (List String)) × (ns : List String) × (ms : List String) × (generate_topology
        node_name 3 0 TopologyType.random_regular [] attempts
      ≡ ok t)
    × (get t (node_name 1) ≡ some ns)
    × (get t (node_name 2) ≡ some ms)
    × (contains ns (node_name 2) ≡ joined triangle 1 2)
    × (contains ms (node_name 1) ≡ joined triangle 1 2)
unfolding regular_graph draw draw_from
generate_topology-joined_example =
    generate_topology-joined node_name node_name-injective 3 0 [] attempts 1 2
      ((omega arith, omega arith), ((omega arith, omega arith), ((omega arith, omega arith), tt)))
      (omega arith) (omega arith)
