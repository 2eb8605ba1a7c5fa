-- ===== src/Scripts/Undirected.antt =====
-- distbench-py/scripts/generate_configs.py: the links of a graph in the topology go both ways.
use distributed_algo.Prelude.{
  ℕ, zero, suc, ◌<◌, String, List, [], ◌∷◌, ◌++◌, Bool, false, some, Dict, contains, eq_string,
  nat_eqb, ◌&&◌, ◌||◌, if◌then◌else◌, ◌≡◌, refl, sym, subst, ◌∙◌, arith, get, put, ok, All,
  get-put_same, get-put_other, get-index, Bool-cases, inl, inr, nat_eqb_iff,
}
use distributed_algo.Scripts.Topology.{
  Edges, Attempt, TopologyType, no_links, append_link, add_edges, regular_graph, generate_topology,
}
use distributed_algo.Scripts.Connected.{same_name, contains-append}

-- the edge between two nodes, in either order
unfoldable pub joined : Edges → ℕ → ℕ → Bool
joined [] i j = false
joined ((u, v) ∷ edges) i j =
    (nat_eqb u i && nat_eqb v j || nat_eqb v i && nat_eqb u j) || joined edges i j

joined_swap : (edges : Edges) (i j : ℕ) → joined edges i j ≡ joined edges j i
unfolding joined
joined_swap [] i j = refl
joined_swap ((u, v) ∷ edges) i j = ground (arith, joined_swap edges i j)

-- the ends of the edges are nodes
abbrev pub IsGraph : ℕ → Edges → Type 0
IsGraph n = All (λ (e : ℕ × ℕ). (e.0 < n) × (e.1 < n))

module _ (node_name : ℕ → String) (injective : (i j : ℕ) → node_name i ≡ node_name j → i ≡ j) where
  abbrev Has : ℕ → Dict String (List String) → (ℕ → List String) → Type 0
  Has n t links = (i : ℕ) → i < n → get t (node_name i) ≡ some (links i)

  -- an entry with one more link
  abbrev grow : ℕ → ℕ → (ℕ → List String) → ℕ → List String
  grow u v links i = if nat_eqb u i then links i ++ (node_name v ∷ []) else links i

  no_links_lem : (n i : ℕ) → i < n → get (no_links node_name n) (node_name i) ≡ some []
  unfolding no_links
  no_links_lem zero i h = absurd (omega arith)
  no_links_lem (suc n) i h = elim (Bool-cases (nat_eqb i n)) [
    | inl last ↦
        subst (λ x. get (put (no_links node_name n) (node_name n) []) (node_name x) ≡ some [])
          (sym ((nat_eqb_iff i n).0 last)) (get-put_same (no_links node_name n) (node_name n) [])
    | inr earlier ↦
        get-put_other (no_links node_name n) (node_name n) (node_name i) []
          (same_name node_name injective n i ∙ ground (arith, earlier))
        ∙ no_links_lem n i (ground (arith, earlier, h))
  ]

  append_link_lem :
      (n u v : ℕ) (t : Dict String (List String)) (links : ℕ → List String)
      → u < n
      → Has n t links
      → (t' : Dict String (List String)) × (append_link node_name u v t ≡ ok t')
        × Has n t' (grow u v links)
  unfolding append_link
  append_link_lem n u v t links hu has = (
    put t (node_name u) (links u ++ (node_name v ∷ [])),
    rw (get-index t (node_name u) (links u) (has u hu)) refl,
    λ i h. elim (Bool-cases (nat_eqb u i)) [
      | inl same ↦
          subst
            (λ x.
              get (put t (node_name u) (links u ++ (node_name v ∷ []))) (node_name x)
              ≡ some (grow u v links x))
            ((nat_eqb_iff u i).0 same)
            (rw ((nat_eqb_iff u u).1 refl)
              (get-put_same t (node_name u) (links u ++ (node_name v ∷ []))))
      | inr different ↦ rw different (
          get-put_other t (node_name u) (node_name i) _
            (same_name node_name injective u i ∙ different)
          ∙ has i h)
    ],
  )

  contains-grow :
      (u v i j : ℕ) (links : ℕ → List String)
      → contains (grow u v links i) (node_name j)
        ≡ (contains (links i) (node_name j) || nat_eqb u i && nat_eqb v j)
  unfolding contains
  contains-grow u v i j links = elim (Bool-cases (nat_eqb u i)) [
    | inl same ↦ rw same (
        contains-append (links i) (node_name v ∷ []) (node_name j)
        ∙ ground (arith, same_name node_name injective v j))
    | inr different ↦ rw different (ground arith)
  ]

  -- The loop over the edges ends, and adds to the links of each node those that the edges make.
  add_edges_lem :
      (n : ℕ) (edges : Edges) (t : Dict String (List String)) (links : ℕ → List String)
      → IsGraph n edges
      → Has n t links
      → (t' : Dict String (List String)) × (links' : ℕ → List String) × (add_edges node_name edges t
          ≡ ok t')
        × Has n t' links'
        × ((i j : ℕ)
            → contains (links' i) (node_name j)
              ≡ (contains (links i) (node_name j) || joined edges i j))
  unfolding add_edges joined
  add_edges_lem n [] t links g has = (t, links, refl, has, λ i j. ground arith)
  add_edges_lem n ((u, v) ∷ edges) t links g has =
      let (t1, added, has1) = append_link_lem n u v t links g.0.0 has in
      let (t2, added', has2) = append_link_lem n v u t1 (grow u v links) g.0.1 has1 in
      let (t', links', ended, has', each) =
        add_edges_lem n edges t2 (grow v u (grow u v links)) g.1 has2 in
      (
        t',
        links',
        rw (added, added') ended,
        has',
        λ i j.
            ground (
              arith,
              each i j,
              contains-grow v u i j (grow u v links),
              contains-grow u v i j links,
            ),
      )

  -- Where the ends of the edges of the graph that networkx gives are nodes, and the nodes' names differ,
  -- the topology of a random regular graph is made, and any two nodes have an entry in it: each
  -- is a neighbour of the other if and only if the graph has an edge between them.
  pub generate_topology-joined :
      (n f : ℕ) (complete : Edges) (attempts : ℕ → Attempt) (i j : ℕ)
      → IsGraph n (regular_graph n f complete attempts)
      → i < n
      → j < n
      → (t : Dict String (List String)) × (ns : List String) × (ms : List String)
        × (generate_topology node_name n f TopologyType.random_regular complete attempts ≡ ok t)
        × (get t (node_name i) ≡ some ns)
        × (get t (node_name j) ≡ some ms)
        × (contains ns (node_name j) ≡ joined (regular_graph n f complete attempts) i j)
        × (contains ms (node_name i) ≡ joined (regular_graph n f complete attempts) i j)
  unfolding generate_topology contains
  generate_topology-joined n f complete attempts i j g hi hj =
      let graph = regular_graph n f complete attempts in
      let (t, links, made, has, each) =
        add_edges_lem n graph (no_links node_name n) (λ i. []) g (no_links_lem n) in
      (t, links i, links j, made, has i hi, has j hj, each i j, each j i ∙ joined_swap graph j i)
