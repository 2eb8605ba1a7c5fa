-- ===== src/Launch/Tcp.antt =====
-- distbench-py/distbench/main.py: `run_local` and `run_network`, up to the start of the nodes.
use distributed_algo.Prelude.{
  ℕ, String, List, [], ◌∷◌, true, false, Option, none, some, Dict, get, index, eq_string, eq_nat,
  Result, ok, raises, value_error, ◌>>=◌,
}
use distributed_algo.Transport.Connection.{SocketAddress}
use distributed_algo.Transport.Local.{Wire, wire}
use distributed_algo.Launch.Config.{Loaded, load_config, keys}
use distributed_algo.Launch.Mappings.{Mappings, build_tcp_mappings}
use distributed_algo.Launch.Nodes.{get_format, Registry, make_algorithm, Launched, community_of}

pub record TcpTransport : Type 0 where
  pub local_numeric_id : ℕ
  pub all_peer_sockets : Dict ℕ SocketAddress
  pub bind_addr : SocketAddress

-- `TcpTransport(local_numeric_id, all_peer_sockets)`
unfoldable pub init_transport : ℕ → Dict ℕ SocketAddress → Result TcpTransport
init_transport local_numeric_id sockets = do
  socket ← index sockets local_numeric_id
  ok (record {
    local_numeric_id = local_numeric_id;
    all_peer_sockets = sockets;
    bind_addr = socket;
  })

abbrev pub TcpNode : Type 0 → Type 0 → Type 0
TcpNode M G = Launched (Wire TcpTransport) ℕ M G

module _ {V M G : Type 0} (registry : Registry V G) (manager : ℕ → M) (names : V → List String)
    (algorithm_name : String) (latency : ℕ × ℕ) (port_base : ℕ) where
  -- the body of the loop of `run_local`, which `run_network` has once
  unfoldable pub make_node : List String → Mappings → String → Dict String V → Result (TcpNode M G)
  unfolding init_transport wire community_of make_algorithm
  make_node all_node_ids m node_id node_config = do
    local_numeric_id ← index m.peer_id_to_numeric_addr node_id
    transport ← init_transport local_numeric_id m.all_peer_sockets
    algorithm ← make_algorithm registry algorithm_name node_config
    ok (record {
      node_id = node_id;
      transport = wire latency transport;
      community =
          community_of manager names all_node_ids node_id node_config m.peer_id_to_numeric_addr;
      algorithm = algorithm;
    })

  unfoldable pub make_nodes :
      List String → Mappings → Dict String (Dict String V) → Result (List (TcpNode M G))
  unfolding make_node
  make_nodes all_node_ids m [] = ok []
  make_nodes all_node_ids m ((node_id, node_config) ∷ config) = do
    node ← make_node all_node_ids m node_id node_config
    nodes ← make_nodes all_node_ids m config
    ok (node ∷ nodes)

  unfoldable pub run_local :
      Loaded (Dict String V) → (format_name : String) → Result (List (TcpNode M G))
  unfolding load_config get_format build_tcp_mappings make_nodes keys
  run_local loaded format_name = do
    config ← load_config loaded
    _ ← get_format format_name
    m ← build_tcp_mappings port_base true (keys config)
    make_nodes (keys config) m config

  unfoldable pub find_config : Option (Dict String V) → Result (Dict String V)
  find_config none = raises value_error
  find_config (some node_config) = ok node_config

  unfoldable pub run_network :
      Loaded (Dict String V) → (format_name : String) → (node_id : String) → Result (TcpNode M G)
  unfolding load_config get_format build_tcp_mappings make_node keys find_config
  run_network loaded format_name node_id = do
    config ← load_config loaded
    node_config ← find_config (get config node_id)
    _ ← get_format format_name
    m ← build_tcp_mappings port_base false (keys config)
    make_node (keys config) m node_id node_config
