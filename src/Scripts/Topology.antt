-- ===== src/Scripts/Topology.antt =====
-- distbench-py/scripts/generate_configs.py: `generate_topology`. The graphs are those of networkx.
use distributed_algo.Prelude.{
  ℕ, zero, suc, ◌+◌, ◌*◌, String, List, [], ◌∷◌, ◌++◌, Bool, true, false, Dict, put, index,
  eq_string, leb, if◌then◌else◌, Result, ok, raises, value_error, ◌>>=◌,
}
use distributed_algo.Scripts.{generate_ring_topology}

abbrev pub Edges : Type 0
Edges = List (ℕ × ℕ)

-- what a call of `random_regular_graph` gives: a graph, and whether it is connected, or an error
pub data Attempt : Type 0 where
  drawn : Edges → (is_connected : Bool) → Attempt
  network_error : Attempt

pub data TopologyType : Type 0 where
  ring random_regular other : TopologyType

unfoldable pub draw_from : (rest : Edges) → Attempt → Edges
draw_from rest (drawn g true) = g
draw_from rest (drawn g false) = rest
draw_from rest network_error = rest

-- the first connected graph of the next `left` attempts, else the complete graph
unfoldable pub draw : (complete : Edges) → (attempts : ℕ → Attempt) → (attempt left : ℕ) → Edges
unfolding draw_from
draw complete attempts attempt zero = complete
draw complete attempts attempt (suc left) =
    draw_from (draw complete attempts (attempt + 1) left) (attempts attempt)

-- the graph of the degree `2 f + 2`, with the attempts that networkx makes for it
unfoldable pub regular_graph : (n f : ℕ) → (complete : Edges) → (attempts : ℕ → Attempt) → Edges
unfolding draw
regular_graph n f complete attempts =
    if leb n (2 * f + 2) then complete else draw complete attempts 0 10

module _ (node_name : ℕ → String) where
  -- `{f"n{i}": [] for i in range(n)}`
  unfoldable pub no_links : ℕ → Dict String (List String)
  unfolding put
  no_links zero = []
  no_links (suc i) = put (no_links i) (node_name i) []

  -- `topology[f"n{u}"].append(f"n{v}")`
  unfoldable pub append_link :
      ℕ → ℕ → Dict String (List String) → Result (Dict String (List String))
  unfolding put index
  append_link u v t = do
    links ← index t (node_name u)
    ok (put t (node_name u) (links ++ (node_name v ∷ [])))

  unfoldable pub add_edges : Edges → Dict String (List String) → Result (Dict String (List String))
  unfolding append_link
  add_edges [] t = ok t
  add_edges ((u, v) ∷ edges) t = do
    t' ← append_link u v t
    t'' ← append_link v u t'
    add_edges edges t''

  unfoldable pub generate_topology :
      (n f : ℕ)
      → TopologyType
      → (complete : Edges) → (attempts : ℕ → Attempt) → Result (Dict String (List String))
  unfolding add_edges no_links regular_graph generate_ring_topology
  generate_topology n f ring complete attempts = ok (generate_ring_topology node_name n (2 * f + 1))
  generate_topology n f random_regular complete attempts =
      add_edges (regular_graph n f complete attempts) (no_links n)
  generate_topology n f other complete attempts = raises value_error
