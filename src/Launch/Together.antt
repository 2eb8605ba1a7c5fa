-- ===== src/Launch/Together.antt =====
-- distbench-py/distbench/main.py: in `run_offline` every node can connect to every node, or the run
-- fails.
use distributed_algo.Prelude.{
  ℕ, String, List, [], ◌∷◌, true, false, ◌||◌, some, Dict, get, get-put, get-put_same, get-has,
  get-index, All, All-map, ◌≡◌, refl, sym, subst, ◌∙◌, arith, inl, inr, eq_string, ltb,
  if◌then◌else◌, Bool-cases, ok, raises, attribute_error, Returns, IfOk, bind-IfOk, IfOk-any,
  IfOk-ok, bind-Returns,
}
use distributed_algo.Transport.Local.{
  LocalAddress, LocalTransport, init, register_server, set_current_node, connect, connect_from,
  direct, delays, wire, inner,
}
use distributed_algo.Launch.Config.{keys}
use distributed_algo.Launch.Nodes.{Registry, make_algorithm}
use distributed_algo.Launch.Offline.{
  OfflineNode, register, register_each, make_node, make_nodes, register_all, assemble,
}

-- registered where no latency is asked for
registered : List String → LocalTransport String → LocalTransport String
registered [] t = t
registered (s ∷ ss) t = registered ss (register_server s s t)

register_each-direct :
    (ss : List String) (t : LocalTransport String)
    → register_each ss (direct t) ≡ ok (direct (registered ss t))
unfolding register_each register registered
register_each-direct [] t = refl
register_each-direct (s ∷ ss) t = register_each-direct ss (register_server s s t)

registered-current :
    (ss : List String) (t : LocalTransport String)
    → (registered ss t).current_node_id ≡ t.current_node_id
unfolding registered register_server
registered-current [] t = refl
registered-current (s ∷ ss) t = registered-current ss (register_server s s t)

abbrev Serves : LocalTransport String → String → Type 0
Serves t s = get t.servers s ≡ some s

register_server-Serves :
    (x s : String) (t : LocalTransport String) → Serves t s → Serves (register_server x x t) s
unfolding register_server
register_server-Serves x s t h = ground (arith, get-put t.servers x s x, eq_string.sound x s)

registered-keeps :
    (ss : List String) (s : String) (t : LocalTransport String)
    → Serves t s
    → Serves (registered ss t) s
unfolding registered
registered-keeps [] s t h = h
registered-keeps (x ∷ ss) s t h =
    registered-keeps ss s (register_server x x t) (register_server-Serves x s t h)

register_server-own : (s : String) (t : LocalTransport String) → Serves (register_server s s t) s
unfolding register_server
register_server-own s t = get-put_same t.servers s s

registered-Serves :
    (ss : List String) (t : LocalTransport String) → All (Serves (registered ss t)) ss
unfolding registered
registered-Serves [] t = tt
registered-Serves (x ∷ ss) t = (
  registered-keeps ss x (register_server x x t) (register_server-own x t),
  registered-Serves ss (register_server x x t),
)

-- A connection from `source` to `target` is one to the node object of that name.
abbrev pub Connects : LocalTransport String → (source target : String) → Type 0
Connects t source target =
    connect (record { node_id = target }) t
    ≡ ok (record {
      server = target;
      target_address = record { node_id = target };
      source_address = record { node_id = source };
    })

Serves-Connects :
    (t : LocalTransport String) (source target : String)
    → t.current_node_id ≡ some source
    → Serves t target
    → Connects t source target
unfolding connect connect_from
Serves-Connects t source target current serves =
    rw (get-has t.servers target target serves, current, get-index t.servers target target serves)
      refl

-- Each entry of the configuration has its node, in order, and the node connects to each of `ids`.
abbrev pub Together :
    {V M G : Type 0}
    → (ids : List String) → Dict String (Dict String V)
    → List (OfflineNode M G)
    → Type 0
Together ids [] [] = Unit
Together ids [] (n ∷ ns) = ⊥
Together ids ((s, c) ∷ config) [] = ⊥
Together ids ((s, c) ∷ config) (n ∷ ns) =
    (n.node_id ≡ s) × All (Connects (inner n.transport) s) ids × Together ids config ns

module _ {V M G : Type 0} (registry : Registry V G) (manager : LocalAddress → M)
    (names : V → List String) (algorithm_name : String) (latency : ℕ × ℕ) where
  -- what the first pass makes for each entry
  abbrev Made : Dict String (Dict String V) → List (OfflineNode M G) → Type 0
  Made [] [] = Unit
  Made [] (n ∷ ns) = ⊥
  Made ((s, c) ∷ config) [] = ⊥
  Made ((s, c) ∷ config) (n ∷ ns) =
      (n.node_id ≡ s) × (n.transport ≡ wire latency (set_current_node s init)) × Made config ns

  make_node-Made :
      (ids : List String) (s : String) (c : Dict String V)
      → IfOk
          (λ (n : OfflineNode M G).
            (n.node_id ≡ s) × (n.transport ≡ wire latency (set_current_node s init)))
          (make_node registry manager names algorithm_name latency ids s c)
  unfolding make_node
  make_node-Made ids s c =
      bind-IfOk _ _ (make_algorithm registry algorithm_name c) _ (IfOk-any _) (λ g _. (refl, refl))

  make_nodes-Made :
      (ids : List String) (config : Dict String (Dict String V))
      → IfOk (Made config) (make_nodes registry manager names algorithm_name latency ids config)
  unfolding make_nodes
  make_nodes-Made ids [] = tt
  make_nodes-Made ids ((s, c) ∷ config) =
      bind-IfOk _ _ (make_node registry manager names algorithm_name latency ids s c) _
        (make_node-Made ids s c)
        (λ n made.
          bind-IfOk _ _ (make_nodes registry manager names algorithm_name latency ids config) _
            (make_nodes-Made ids config) (λ ns rest. (made.0, made.1, rest)))

  current_set :
      (s : String) (t : LocalTransport String) → (set_current_node s t).current_node_id ≡ some s
  unfolding set_current_node
  current_set s t = refl

  linked-Connects :
      (ids : List String) (s : String)
      → All (Connects (registered ids (set_current_node s init)) s) ids
  linked-Connects ids s =
      All-map (Serves (registered ids (set_current_node s init))) _ ids
        (λ t serves.
          Serves-Connects _ s t
            (registered-current ids (set_current_node s init) ∙ current_set s init) serves)
        (registered-Serves ids (set_current_node s init))

  register_all-Together :
      (ids : List String) (config : Dict String (Dict String V)) (ns : List (OfflineNode M G))
      → ((t : LocalTransport String) → wire latency t ≡ direct t)
      → Made config ns
      → Returns (register_all ids ns) (Together ids config)
  unfolding register_all inner
  register_all-Together ids [] [] plain made = tt
  register_all-Together ids [] (n ∷ ns) plain made = absurd made
  register_all-Together ids (entry ∷ config) [] plain made = absurd made
  register_all-Together ids ((s, c) ∷ config) (n ∷ ns) plain (named, at, made) =
      rw (at ∙ plain (set_current_node s init)) (
        rw (register_each-direct ids (set_current_node s init)) (
          bind-Returns _ _ (register_all ids ns) _ (register_all-Together ids config ns plain made)
            (λ rest together. (named, linked-Connects ids s, together))))

  -- `DelayedTransport` has no `register_server`.
  register_all-fails :
      (ids : List String) (s : String) (c : Dict String V) (config : Dict String (Dict String V))
      (ns : List (OfflineNode M G))
      → ((t : LocalTransport String) → wire latency t ≡ delays t latency)
      → Made ((s, c) ∷ config) ns
      → register_all (s ∷ ids) ns ≡ raises attribute_error
  unfolding register_all register_each register
  register_all-fails ids s c config [] slow made = absurd made
  register_all-fails ids s c config (n ∷ ns) slow (named, at, made) =
      rw (at ∙ slow (set_current_node s init)) refl

  assemble_made :
      (config : Dict String (Dict String V)) (made : List (OfflineNode M G))
      → make_nodes registry manager names algorithm_name latency (keys config) config ≡ ok made
      → assemble registry manager names algorithm_name latency config
        ≡ register_all (keys config) made
  unfolding assemble
  assemble_made config made e = rw e refl

  wire_slow :
      (ltb 0 latency.0 || ltb 0 latency.1) ≡ true
      → (t : LocalTransport String) → wire latency t ≡ delays t latency
  unfolding wire
  wire_slow slow t = rw slow refl

  wire_plain :
      (ltb 0 latency.0 || ltb 0 latency.1) ≡ false
      → (t : LocalTransport String) → wire latency t ≡ direct t
  unfolding wire
  wire_plain plain t = rw plain refl

  -- Where the first pass makes the nodes of a configuration that is not empty, and no latency is
  -- asked for, the second pass succeeds, and then each of the nodes, in the order of the
  -- configuration, connects to every node of it by name, as itself. With a latency, the second pass
  -- raises an AttributeError, and no node is started.
  pub assemble-Together :
      (s : String) (c : Dict String V) (config : Dict String (Dict String V))
      (made : List (OfflineNode M G))
      → let whole = (s, c) ∷ config in
        make_nodes registry manager names algorithm_name latency (keys whole) whole ≡ ok made
        → let whole = (s, c) ∷ config in
          let nodes = assemble registry manager names algorithm_name latency whole in
          if ltb 0 latency.0 || ltb 0 latency.1
          then nodes ≡ raises attribute_error
          else Returns nodes (Together (keys whole) whole)
  unfolding keys
  assemble-Together s c config made e =
      let whole = (s, c) ∷ config in
      let shape : Made whole made =
        IfOk-ok (Made whole) _ made (make_nodes-Made (keys whole) whole) e in
      elim (Bool-cases (ltb 0 latency.0 || ltb 0 latency.1)) [
        | inl slow ↦ rw slow (
            assemble_made whole made e
            ∙ register_all-fails (keys config) s c config made (wire_slow slow) shape)
        | inr plain ↦ rw plain (
            subst (λ r. Returns r (Together (keys whole) whole)) (sym (assemble_made whole made e))
              (register_all-Together (keys whole) whole made (wire_plain plain) shape))
      ]
