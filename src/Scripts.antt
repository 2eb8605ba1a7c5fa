-- ===== src/Scripts.antt =====
-- distbench-py/scripts/generate_configs.py: the files of the ring benchmarks. A node's name, `n` with
-- its number, is a function of the number.
pub mod Configured
pub mod Connected
pub mod Topology
pub mod Undirected
use distributed_algo.Prelude.{
  ℕ, zero, suc, ◌+◌, ◌*◌, ◌-◌, ◌/◌, ◌%◌, String, List, [], ◌∷◌, ◌++◌, Bool, Option, none, some,
  Dict, put, take, contains, eq_string, leb, ltb, nat_eqb, ◌&&◌, if◌then◌else◌, Result, ok, ◌>>=◌,
  index,
}
use distributed_algo.Launch.Config.{set_of}

-- `(i - j) % n`, which is not negative in Python
unfoldable pub minus_mod : ℕ → ℕ → ℕ → ℕ
minus_mod i j n = (i + (n - j % n)) % n

module _ (node_name : ℕ → String) where
  module _ (n k : ℕ) where
    -- what the round `j` of the inner loop appends
    unfoldable pub append_round : ℕ → ℕ → List String
    unfolding minus_mod
    append_round i j =
        if leb j (k / 2)
        then node_name ((i + j) % n) ∷ node_name (minus_mod i j n) ∷ []
        else if nat_eqb (k % 2) 1 && nat_eqb j (k / 2 + 1)
        then node_name ((i + j) % n) ∷ []
        else []

    -- `node_neighbours` after the rounds 1 to `j`
    unfoldable pub node_neighbours : ℕ → ℕ → List String
    unfolding append_round
    node_neighbours i zero = []
    node_neighbours i (suc j) = node_neighbours i j ++ append_round i (suc j)

    unfoldable pub neighbours_of : ℕ → List String
    unfolding node_neighbours set_of
    neighbours_of i = take k (set_of (node_neighbours i k))

    -- the dictionary after the rounds for the first nodes
    unfoldable pub rounds : ℕ → Dict String (List String)
    unfolding neighbours_of put
    rounds zero = []
    rounds (suc i) = put (rounds i) (node_name i) (neighbours_of i)

  unfoldable pub generate_ring_topology : (n k : ℕ) → Dict String (List String)
  unfolding rounds
  generate_ring_topology n k = rounds n k n

-- an entry of the file, with the options of the optimized broadcast
pub record NodeConfig (F : Type 0) : Type 0 where
  pub host : String
  pub port : ℕ
  pub neighbours : List String
  pub is_sender : Bool
  pub f : ℕ
  pub payload : Option String
  pub behavior_mode : String
  pub optimization_flags : Option F

pub data Chosen : Type 0 where
  dolev bracha bracha_optimized : Chosen

unfoldable pub payload_of : Chosen → Option String
payload_of Chosen.dolev = some "hello"
payload_of c = none

unfoldable pub flags_of : {F : Type 0} → Chosen → Option F → Option F
flags_of Chosen.bracha_optimized flags = flags
flags_of c flags = none

module _ (node_name : ℕ → String) where
  -- `[f"n{i}" for i in range(first, first + count)]`
  unfoldable pub names : (first count : ℕ) → List String
  names first zero = []
  names first (suc count) = node_name first ∷ names (first + 1) count

  -- with more Byzantine nodes than nodes, the names from a negative number on are no node's
  unfoldable pub byzantine_nodes : (n num_byzantine : ℕ) → List String
  unfolding names
  byzantine_nodes n num_byzantine = names (n - num_byzantine) (n - (n - num_byzantine))

  unfoldable pub sender_nodes : (num_senders : ℕ) → List String
  unfolding names
  sender_nodes num_senders = names 0 num_senders

  module _ {F : Type 0} (n f num_byzantine num_senders : ℕ) (algorithm : Chosen)
      (byzantine_mode : String) (optimization_flags : Option F) where
    unfoldable pub node_config : ℕ → List String → NodeConfig F
    unfolding payload_of flags_of byzantine_nodes sender_nodes
    node_config i neighbours = record {
      host = "127.0.0.1";
      port = 10000 + i;
      neighbours = neighbours;
      is_sender = contains (sender_nodes num_senders) (node_name i);
      f = f;
      payload = payload_of algorithm;
      behavior_mode =
          if contains (byzantine_nodes n num_byzantine) (node_name i)
          then byzantine_mode
          else "HONEST";
      optimization_flags = flags_of algorithm optimization_flags;
    }

    -- the entries of the first nodes, from their topology
    unfoldable pub entries : Dict String (List String) → ℕ → Result (Dict String (NodeConfig F))
    unfolding node_config put index
    entries topology zero = ok []
    entries topology (suc i) = do
      config ← entries topology i
      neighbours ← index topology (node_name i)
      ok (put config (node_name i) (node_config i neighbours))

    -- `generate_config` with the ring topology
    unfoldable pub generate_config : Result (Dict String (NodeConfig F))
    unfolding entries generate_ring_topology
    generate_config = entries (generate_ring_topology node_name n (2 * f + 1)) n
