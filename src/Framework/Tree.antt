-- ===== src/Framework/Tree.antt =====
-- distbench-py/distbench/algorithm.py and decorators.py: an algorithm with its child algorithms, as
-- a tree. A class is what `@distbench` finds in it; configuration values, key pairs, communities and
-- formats are of any types.
pub mod Init
pub mod SetUp
pub mod Route
pub mod Checked
pub mod Keystore
pub mod Deliver
pub mod Peer
pub mod Collect
use distributed_algo.Prelude.{
  ℕ, String, List, [], ◌∷◌, Bool, true, false, not, ◌&&◌, Option, none, some, Dict, get, has, put,
  ◌==◌, eq_string, nat_eqb, if◌then◌else◌, Result, ok, raises, value_error, runtime_error, ◌>>=◌,
}

-- what a class keeps of a handler: the type of its message, whether that is a class and no string,
-- and whether the method has a result
pub record HandlerInfo : Type 0 where
  pub msg_type : String
  pub is_resolved : Bool
  pub returns : Bool

-- `config_field(...)`: the field of a dataclass that it makes
pub record Field (V : Type 0) : Type 0 where
  pub required : Bool
  pub default : Option V
  pub default_factory : Option V

unfoldable pub config_field :
    {V : Type 0} → (default : Option V) → (default_factory : Option V) → (required : Bool) → Field V
config_field default (some made) required = record {
  required = required;
  default = none;
  default_factory = some made;
}
config_field default none required = record {
  required = required;
  default = default;
  default_factory = none;
}

-- What `@distbench` finds in a class. `resets` says that the class has an `__init__` of its own,
-- which calls `super().__init__()`, that is `Algorithm.__init__`.
pub record ClassInfo (V : Type 0) : Type 0 where
  pub config_fields : Dict String (Field V)
  pub resets : Bool
  pub handler_methods : Dict String HandlerInfo
  pub child_handlers : Dict String (Dict String HandlerInfo)

mutual
  pub data Class (V : Type 0) : Type 0 where
    class : ClassInfo V → ChildFields V → Class V

  pub data ChildFields (V : Type 0) : Type 0 where
    no_field : ChildFields V
    child_field : String → Class V → ChildFields V → ChildFields V

-- what `Algorithm.__init__` sets, but for the event and the children
pub record Context (K C F : Type 0) : Type 0 where
  pub node_id : Option String
  pub total_nodes : ℕ
  pub keypair : Option K
  pub community : Option C
  pub format : Option F

abbrev pub blank : {K C F : Type 0} → Context K C F
blank = record { node_id = none; total_nodes = 0; keypair = none; community = none; format = none }

-- An instance: its `_name`, its class, what it knows, its event, its configuration and its children.
-- A child that is an attribute stands in `_children` if it is registered.
mutual
  pub data Algorithm (V K C F : Type 0) : Type 0 where
    algorithm :
        (name : String)
        → ClassInfo V
        → Context K C F
        → (is_terminated : Bool) → (attributes : Dict String V) → Children V K C F
        → Algorithm V K C F

  pub data Children (V K C F : Type 0) : Type 0 where
    no_child : Children V K C F
    child :
        (is_registered : Bool) → String → Algorithm V K C F → Children V K C F → Children V K C F

unfoldable pub some_or_raise : {A : Type 0} → Option A → Result A
some_or_raise none = raises runtime_error
some_or_raise (some a) = ok a

module _ {V K C F : Type 0} where
  unfoldable pub context : Algorithm V K C F → Context K C F
  context (algorithm name cls c t fields cs) = c

  unfoldable pub class_info : Algorithm V K C F → ClassInfo V
  class_info (algorithm name cls c t fields cs) = cls

  unfoldable pub children : Algorithm V K C F → Children V K C F
  children (algorithm name cls c t fields cs) = cs

  unfoldable pub is_terminated : Algorithm V K C F → Bool
  is_terminated (algorithm name cls c t fields cs) = t

  -- a change of what an algorithm knows, which goes to its registered children
  unfoldable mutual
    pub spread : (Context K C F → Context K C F) → Algorithm V K C F → Algorithm V K C F
    spread f (algorithm name cls c t fields cs) =
        algorithm name cls (f c) t fields (spread_children f cs)

    pub spread_children : (Context K C F → Context K C F) → Children V K C F → Children V K C F
    spread_children f no_child = no_child
    spread_children f (child true name a cs) = child true name (spread f a) (spread_children f cs)
    spread_children f (child false name a cs) = child false name a (spread_children f cs)

  unfoldable pub set_node_id : String → Algorithm V K C F → Algorithm V K C F
  unfolding spread
  set_node_id id a = spread (λ c. record c { node_id = some id }) a

  unfoldable pub set_total_nodes : ℕ → Algorithm V K C F → Algorithm V K C F
  unfolding spread
  set_total_nodes n a = spread (λ c. record c { total_nodes = n }) a

  unfoldable pub set_keypair : K → Algorithm V K C F → Algorithm V K C F
  unfolding spread
  set_keypair k a = spread (λ c. record c { keypair = some k }) a

  unfoldable pub set_format : F → Algorithm V K C F → Algorithm V K C F
  unfolding spread
  set_format f a = spread (λ c. record c { format = some f }) a

  -- `child.community = community`, which stays with the one algorithm
  unfoldable pub set_community : C → Algorithm V K C F → Algorithm V K C F
  set_community community (algorithm name cls c t fields cs) =
      algorithm name cls (record c { community = some community }) t fields cs

  unfoldable mutual
    pub terminate : Algorithm V K C F → Algorithm V K C F
    terminate (algorithm name cls c t fields cs) =
        algorithm name cls c true fields (terminate_children cs)

    pub terminate_children : Children V K C F → Children V K C F
    terminate_children no_child = no_child
    terminate_children (child true name a cs) =
        child true name (terminate a) (terminate_children cs)
    terminate_children (child false name a cs) = child false name a (terminate_children cs)

  -- `Algorithm.id` and `Algorithm.N`
  unfoldable pub id : Algorithm V K C F → Result String
  unfolding some_or_raise context
  id a = some_or_raise (context a).node_id

  unfoldable pub total : Algorithm V K C F → Result ℕ
  unfolding context
  total a = let n = (context a).total_nodes in if nat_eqb n 0 then raises runtime_error else ok n
