-- ===== src/Launch/Nodes.antt =====
-- distbench-py/distbench/main.py: what the three ways to run nodes share. The classes of the
-- registry are given as functions from a configuration to an instance, and a connection manager is
-- of any type.
use distributed_algo.Prelude.{
  String, List, [], ◌∷◌, Option, none, some, Dict, get, put, ◌==◌, eq_string, if◌then◌else◌, Result,
  ok, raises, value_error, Eq,
}
use distributed_algo.Framework.Community
use distributed_algo.Framework.Community.{Community}
use distributed_algo.Launch.Config.{extract_neighbours, extract_algorithm_config, discard}

pub data FormatKind : Type 0 where
  json msgpack : FormatKind

-- `_get_format`
unfoldable pub get_format : String → Result FormatKind
get_format name =
    if name == "json" then ok json else if name == "msgpack" then ok msgpack else raises value_error

abbrev pub Registry : Type 0 → Type 0 → Type 0
Registry V G = Dict String (Dict String V → Result G)

unfoldable pub register_algorithm :
    {V G : Type 0} → String → (Dict String V → Result G) → Registry V G → Registry V G
register_algorithm name cls registry = put registry name cls

unfoldable pub make_with :
    {V G : Type 0} → Option (Dict String V → Result G) → Dict String V → Result G
make_with none config = raises value_error
make_with (some cls) config = cls config

-- the test on the name, and the instance for the configuration of a node
unfoldable pub make_algorithm : {V G : Type 0} → Registry V G → String → Dict String V → Result G
unfolding make_with extract_algorithm_config
make_algorithm registry name node_config =
    make_with (get registry name) (extract_algorithm_config node_config)

-- a node with its transport
pub record Launched (T A M G : Type 0) : Type 0 where
  pub node_id : String
  pub transport : T
  pub community : Community A M
  pub algorithm : G

-- the addresses but for the node's own
unfoldable pub other_addresses : {A : Type 0} → String → Dict String A → Dict String A
other_addresses node_id [] = []
other_addresses node_id ((p, a) ∷ addresses) =
    let rest = other_addresses node_id addresses in if p == node_id then rest else (p, a) ∷ rest

module _ {A M V : Type 0} ⦃eq : Eq A⦄ where
  -- the community of a node, on the addresses of all nodes
  unfoldable pub community_of :
      (manager : A → M)
      → (names : V → List String) → (all_node_ids : List String) → String
      → Dict String V
      → Dict String A
      → Community A M
  unfolding other_addresses extract_neighbours discard Community.init
  community_of manager names all_node_ids node_id node_config addresses =
      Community.init manager (discard node_id (extract_neighbours names node_config all_node_ids))
        (other_addresses node_id addresses)
