-- ===== src/Framework/Community.antt =====
-- distbench-py/distbench/community.py: the peers of a node, their states and their keys. Addresses
-- and connection managers are any types.
use distributed_algo.Prelude.{
  String, List, [], ◌∷◌, Bool, Option, none, some, Eq, eq_string, Dict, has, get, get_or, put, map,
  all, length, ltb,
}
use distributed_algo.Framework.Messages.{Value}

pub data NodeStatus : Type 0 where
  not_started key_sharing starting running stopping terminated : NodeStatus

pub record Community (A M : Type 0) : Type 0 where
  pub neighbours : List String
  pub connections : Dict String M
  pub peers : Dict A String
  pub peer_status : Dict String NodeStatus
  pub keys : Dict String Value

abbrev pub values {ℓ κ} : {K : Type ℓ} {V : Type κ} → Dict K V → List V
values d = map (λ e. e.1) d

module _ {M : Type 0} where
  unfoldable pub neighbours_of : List String → Dict String M → List (String × M)
  neighbours_of [] d = []
  neighbours_of (p ∷ ps) d =
      let rest = neighbours_of ps d in elim (get d p) [ none ↦ rest | some m ↦ (p, m) ∷ rest ]

module _ {A M : Type 0} where
  -- `{peer_id: ConnectionManager(transport, addr) for peer_id, addr in peer_addresses.items()}`
  unfoldable pub open_connections : (A → M) → Dict String A → Dict String M
  open_connections manager [] = []
  open_connections manager ((p, a) ∷ addresses) =
      (p, manager a) ∷ open_connections manager addresses

  unfoldable pub set_status : String → NodeStatus → Community A M → Community A M
  set_status p st c = record c { peer_status = put c.peer_status p st }

  unfoldable pub get_status : String → Community A M → NodeStatus
  get_status p c = get_or c.peer_status p not_started

  -- a status for each peer, by the values of the reverse mapping
  unfoldable pub statuses : Community A M → List (String × NodeStatus)
  unfolding get_status
  statuses c = map (λ p. (p, get_status p c)) (values c.peers)

  unfoldable pub connection : String → Community A M → Option M
  connection p c = get c.connections p

  unfoldable pub get_neighbours : Community A M → List (String × M)
  unfolding neighbours_of
  get_neighbours c = neighbours_of c.neighbours c.connections

  unfoldable pub add_key : String → Value → Community A M → Community A M
  add_key p k c = record c { keys = put c.keys p k }

  unfoldable pub get_key : String → Community A M → Option Value
  get_key p c = get c.keys p

  unfoldable pub has_all_keys : Community A M → Bool
  has_all_keys c = all (λ p. has c.keys p) (values c.peers)

module _ {A : Type 0} ⦃eq : Eq A⦄ where
  -- `{addr: peer_id for peer_id, addr in peer_addresses.items()}`: the last peer wins an address
  unfoldable pub reverse_addresses : Dict String A → Dict A String → Dict A String
  reverse_addresses [] d = d
  reverse_addresses ((p, a) ∷ addresses) d = reverse_addresses addresses (put d a p)

module _ {A M : Type 0} ⦃eq : Eq A⦄ where
  unfoldable pub init : (A → M) → List String → Dict String A → Community A M
  unfolding open_connections reverse_addresses
  init manager neighbours addresses = record {
    neighbours = neighbours;
    connections = open_connections manager addresses;
    peers = reverse_addresses addresses [];
    peer_status = [];
    keys = [];
  }

  unfoldable pub id_of : A → Community A M → Option String
  id_of a c = get c.peers a

-- `keys()`: the view `NodeSet` of the peers whose key is stored
abbrev pub NodeSet : Type 0
NodeSet = Dict String Value

unfoldable pub node_set_contains : String → NodeSet → Bool
node_set_contains p d = has d p

unfoldable pub node_set_bool : NodeSet → Bool
node_set_bool d = ltb 0 (length d)
