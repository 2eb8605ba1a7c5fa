-- ===== src/Chain.antt =====
-- distbench-py/distbench/algorithms/message_chain.py: chains of signed messages. A call of a peer
-- that fails is logged, so it is a message; the coroutine that awaits it is a `Task`. `sign` is a
-- parameter, and a chain is told apart by the node names in it.
pub mod Paths
use distributed_algo.Prelude.{
  ℕ, ◌+◌, String, List, [], ◌∷◌, ◌++◌, Bool, true, false, Option, none, some, eq_string, eq_list,
  ◌==◌, contains, add, leb, map, if◌then◌else◌,
}

pub record ChainMessage : Type 0 where
  pub hop_count : ℕ
  pub original_value : String
  pub node_name : String

-- `Signed[ChainMessage]`, with signatures of any type
pub record SignedMessage (G : Type 0) : Type 0 where
  pub value : ChainMessage
  pub signature : G
  pub signer : String

pub record MessageChain : Type 0 where
  -- `str(self.id())`, and the peers in the order of the dictionary
  pub id : String
  pub peers : List String
  pub is_initiator : Bool
  pub initial_value : String
  pub max_hops : ℕ
  pub received_chains : List (List String)
  pub processed_chains : List (List String)
  pub terminated : Bool

unfoldable pub init : String → List String → Bool → String → ℕ → MessageChain
init id peers is_initiator initial_value max_hops = record {
  id = id;
  peers = peers;
  is_initiator = is_initiator;
  initial_value = initial_value;
  max_hops = max_hops;
  received_chains = [];
  processed_chains = [];
  terminated = false;
}

-- A chain that goes out to the peers but for the one it came from; the loop ends with `terminate`
-- or not.
pub record Task (G : Type 0) : Type 0 where
  pub chain : List (SignedMessage G)
  pub except : Option String
  pub peers : List String
  pub terminates : Bool

pub record Turn (G : Type 0) : Type 0 where
  pub node : MessageChain
  pub sends : Option (String × List (SignedMessage G))
  pub rest : Option (Task G)

abbrev pub is_source : Option String → String → Bool
is_source none p = false
is_source (some src) p = src == p

module _ {G : Type 0} where
  unfoldable pub node_path : List (SignedMessage G) → List String
  node_path chain = map (λ m. m.value.node_name) chain

  -- `chain[-1]` of a chain with a first message
  unfoldable pub last_of : SignedMessage G → List (SignedMessage G) → SignedMessage G
  last_of m [] = m
  last_of m (n ∷ chain) = last_of n chain

  unfoldable pub send_each :
      List (SignedMessage G) → Option String → Bool → List String → MessageChain → Turn G
  send_each chain except terminates [] s = record {
    node = if terminates then record s { terminated = true } else s;
    sends = none;
    rest = none;
  }
  send_each chain except terminates (p ∷ peers) s =
      let rest = send_each chain except terminates peers s in
      if is_source except p then rest else (record {
        node = s;
        sends = some (p, chain);
        rest =
            some
              (record { chain = chain; except = except; peers = peers; terminates = terminates });
      })

  unfoldable pub resume : Task G → MessageChain → Turn G
  unfolding send_each
  resume k s = send_each k.chain k.except k.terminates k.peers s

  module _ (sign : ChainMessage → SignedMessage G) where
    unfoldable pub on_start : MessageChain → Turn G
    unfolding send_each
    on_start s =
        if s.is_initiator
        then send_each
            (sign (record { hop_count = 0; original_value = s.initial_value; node_name = s.id })
              ∷ [])
            none true s.peers s
        else (record { node = s; sends = none; rest = none })

    -- the message that the node adds
    unfoldable pub extend : SignedMessage G → List (SignedMessage G) → MessageChain → ChainMessage
    unfolding last_of
    extend first chain s = record {
      hop_count = (last_of first chain).value.hop_count + 1;
      original_value = first.value.original_value;
      node_name = s.id;
    }

    unfoldable pub receive_chain : String → List (SignedMessage G) → MessageChain → Turn G
    unfolding node_path extend send_each
    receive_chain src [] s = record { node = s; sends = none; rest = none }
    receive_chain src (first ∷ chain) s =
        let path = node_path (first ∷ chain) in
        let ours = extend first chain s in
        if contains s.processed_chains path
        then (record { node = s; sends = none; rest = none })
        else send_each ((first ∷ chain) ++ sign ours ∷ []) (some src)
            (leb s.max_hops ours.hop_count) s.peers
            (record s {
              processed_chains = add path s.processed_chains;
              received_chains = s.received_chains ++ path ∷ [];
            })
