-- ===== src/Launch/Config.antt =====
-- distbench-py/distbench/config.py: the configuration of the nodes. What the YAML library reads is
-- given: a mapping, whose values are of any type, or something else.
use Prim.Native.Char.{code}
use Prim.Native.String.{[] as end_of_text, ◌∷◌ as letter}
use distributed_algo.Prelude.{
  ℕ, String, List, [], ◌∷◌, Bool, false, Option, none, some, Dict, get, erase, contains, add,
  eq_string, nat_eqb, if◌then◌else◌, Result, ok, raises, value_error, attribute_error, ◌>>=◌,
}

-- the keys of YAML: strings, and others
pub data Key : Type 0 where
  text : String → Key
  other_key : ℕ → Key

pub data Loaded (V : Type 0) : Type 0 where
  mapping : List (Key × V) → Loaded V
  no_mapping : Loaded V

-- `k.startswith("_")`
unfoldable pub is_template : String → Bool
is_template end_of_text = false
is_template (letter c s) = nat_eqb (code c) 95

-- `set(names)`
unfoldable pub set_of : List String → List String
set_of [] = []
set_of (x ∷ xs) = add x (set_of xs)

-- a missing or an empty list stands for all nodes
unfoldable pub neighbours_or_all : List String → List String → List String
unfolding set_of
neighbours_or_all [] all_node_ids = set_of all_node_ids
neighbours_or_all (n ∷ ns) all_node_ids = set_of (n ∷ ns)

abbrev pub standard_fields : List String
standard_fields = "neighbours" ∷ "host" ∷ "port" ∷ []

module _ {V : Type 0} where
  unfoldable pub filter_templates : List (Key × V) → Result (Dict String V)
  unfolding is_template
  filter_templates [] = ok []
  filter_templates ((other_key n, v) ∷ entries) = raises attribute_error
  filter_templates ((text k, v) ∷ entries) = do
    rest ← filter_templates entries
    ok (if is_template k then rest else (k, v) ∷ rest)

  unfoldable pub load_config : Loaded V → Result (Dict String V)
  unfolding filter_templates
  load_config no_mapping = raises value_error
  load_config (mapping entries) = filter_templates entries

  unfoldable pub keys : Dict String V → List String
  keys [] = []
  keys ((k, v) ∷ d) = k ∷ keys d

  unfoldable pub listed : (V → List String) → Option V → List String
  listed names none = []
  listed names (some v) = names v

  -- `names` reads the value of `neighbours`, a list of node ids
  unfoldable pub extract_neighbours :
      (names : V → List String) → Dict String V → List String → List String
  unfolding neighbours_or_all listed
  extract_neighbours names node_config all_node_ids =
      neighbours_or_all (listed names (get node_config "neighbours")) all_node_ids

  unfoldable pub extract_algorithm_config : Dict String V → Dict String V
  unfolding contains
  extract_algorithm_config [] = []
  extract_algorithm_config ((k, v) ∷ d) =
      let rest = extract_algorithm_config d in
      if contains standard_fields k then rest else (k, v) ∷ rest

-- `neighbours.discard(node_id)` on a set
unfoldable pub discard : String → List String → List String
unfolding erase
discard a s = erase a s
