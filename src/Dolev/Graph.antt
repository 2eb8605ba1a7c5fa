-- ===== src/Dolev/Graph.antt =====
-- distbench-py/distbench/algorithms/dolev.py, `distPaths`: the graph of the recorded paths, and the
-- test for f + 1 node-disjoint paths. `networkx` is a parameter.
use distributed_algo.Prelude.{
  ℕ, ◌+◌, String, List, [], ◌∷◌, ◌++◌, Bool, false, not, Option, none, some, leb, if◌then◌else◌,
}

abbrev pub Edges : Type 0
Edges = List (String × String)

-- `nx.has_path(G, s, t)`, and `nx.node_connectivity(G, s, t)`, which may raises
pub record Networkx : Type 0 where
  pub has_path : Edges → String → String → Bool
  pub node_connectivity : Edges → String → String → Option ℕ

-- an edge for each two nodes that follow each other
unfoldable pub edges_along : List String → Edges
edges_along [] = []
edges_along (a ∷ []) = []
edges_along (a ∷ b ∷ r) = (a, b) ∷ edges_along (b ∷ r)

unfoldable pub build_graph : String → String → List (List String) → Edges
unfolding edges_along
build_graph source me [] = []
build_graph source me (p ∷ paths) =
    edges_along ((source ∷ p) ++ me ∷ []) ++ build_graph source me paths

unfoldable pub dist_paths : Networkx → ℕ → String → List (List String) → String → Bool
unfolding build_graph
dist_paths nx f me [] source = false
dist_paths nx f me (p ∷ paths) source =
    let g = build_graph source me (p ∷ paths) in
    if not (nx.has_path g source me) then false else (elim (nx.node_connectivity g source me) [
      | none ↦ false
      | some disjoint_count ↦ leb (f + 1) disjoint_count
    ])
