-- ===== src/Launch/Offline.antt =====
-- distbench-py/distbench/main.py: `run_offline`, up to the start of the nodes. In the registry of
-- servers a node object is named by its id.
use distributed_algo.Prelude.{
  ℕ, String, List, [], ◌∷◌, Dict, ap, ◌==◌, eq_string, Result, ok, raises, attribute_error, ◌>>=◌,
  Eq,
}
use distributed_algo.Transport.Local.{
  LocalAddress, LocalTransport, init, register_server, set_current_node, Wire, direct, delays, wire,
}
use distributed_algo.Launch.Config.{Loaded, load_config, keys}
use distributed_algo.Launch.Nodes.{get_format, Registry, make_algorithm, Launched, community_of}

-- addresses are compared by their node ids
instance abbrev pub eq_local_address : Eq LocalAddress
eq_local_address = record {
  same = λ a b. a.node_id == b.node_id;
  sound = λ a b. (
    λ h. ap (λ (s : String). record { node_id = s }) ((eq_string.sound a.node_id b.node_id).0 h),
    λ e. (eq_string.sound a.node_id b.node_id).1 (ap (λ (x : LocalAddress). x.node_id) e),
  );
}

abbrev pub OfflineNode : Type 0 → Type 0 → Type 0
OfflineNode M G = Launched (Wire (LocalTransport String)) LocalAddress M G

unfoldable pub local_addresses : List String → Dict String LocalAddress
local_addresses [] = []
local_addresses (p ∷ ps) = (p, record { node_id = p }) ∷ local_addresses ps

-- `transport.register_server(node_id, server)`, which a `DelayedTransport` does not have
unfoldable pub register :
    String → Wire (LocalTransport String) → Result (Wire (LocalTransport String))
unfolding register_server
register node_id (direct t) = ok (direct (register_server node_id node_id t))
register node_id (delays t range) = raises attribute_error

unfoldable pub register_each :
    (server_registry : List String)
    → Wire (LocalTransport String)
    → Result (Wire (LocalTransport String))
unfolding register
register_each [] t = ok t
register_each (s ∷ ss) t = do t' ← register s t; register_each ss t'

-- the second pass
unfoldable pub register_all :
    {M G : Type 0} → List String → List (OfflineNode M G) → Result (List (OfflineNode M G))
unfolding register_each
register_all server_registry [] = ok []
register_all server_registry (node ∷ nodes) = do
  t ← register_each server_registry node.transport
  rest ← register_all server_registry nodes
  ok (record node { transport = t } ∷ rest)

module _ {V M G : Type 0} (registry : Registry V G) (manager : LocalAddress → M)
    (names : V → List String) (algorithm_name : String) (latency : ℕ × ℕ) where
  -- the first pass, for one node
  unfoldable pub make_node : List String → String → Dict String V → Result (OfflineNode M G)
  unfolding init set_current_node wire community_of local_addresses make_algorithm
  make_node all_node_ids node_id node_config = do
    algorithm ← make_algorithm registry algorithm_name node_config
    ok (record {
      node_id = node_id;
      transport = wire latency (set_current_node node_id init);
      community =
          community_of manager names all_node_ids node_id node_config
            (local_addresses all_node_ids);
      algorithm = algorithm;
    })

  unfoldable pub make_nodes :
      List String → Dict String (Dict String V) → Result (List (OfflineNode M G))
  unfolding make_node
  make_nodes all_node_ids [] = ok []
  make_nodes all_node_ids ((node_id, node_config) ∷ config) = do
    node ← make_node all_node_ids node_id node_config
    nodes ← make_nodes all_node_ids config
    ok (node ∷ nodes)

  unfoldable pub assemble : Dict String (Dict String V) → Result (List (OfflineNode M G))
  unfolding make_nodes register_all keys
  assemble config = do nodes ← make_nodes (keys config) config; register_all (keys config) nodes

  unfoldable pub run_offline :
      Loaded (Dict String V) → (format_name : String) → Result (List (OfflineNode M G))
  unfolding load_config get_format assemble
  run_offline loaded format_name = do
    config ← load_config loaded
    _ ← get_format format_name
    assemble config
