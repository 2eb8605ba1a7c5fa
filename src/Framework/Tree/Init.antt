-- ===== src/Framework/Tree/Init.antt =====
-- distbench-py/distbench/decorators.py: the constructor that `@distbench` makes of a class, and
-- `register_child` of algorithm.py. A configuration is a value with a lookup.
use distributed_algo.Prelude.{
  String, [], ◌∷◌, Bool, true, false, Option, none, some, Dict, put, ◌==◌, eq_string, nat_eqb,
  if◌then◌else◌, Result, ok, raises, value_error, ◌>>=◌,
}
use distributed_algo.Framework.Tree.{
  Field, Class, class, ChildFields, no_field, child_field, Context, blank, Algorithm, algorithm,
  Children, no_child, child, set_node_id, set_total_nodes, set_keypair, set_community, set_format,
}

-- `config.get(name)`, and the empty dictionary
pub record Yaml (V : Type 0) : Type 0 where
  pub get_field : V → String → Option V
  pub empty : V

-- `if x is not None: f(x)`
unfoldable pub when {ℓ} : {A : Type 0} {B : Type ℓ} → Option A → (A → B → B) → B → B
when none f b = b
when (some a) f b = f a b

module _ {V K C F : Type 0} where
  -- what a parent knows already, set in a new child
  unfoldable pub propagate : Context K C F → Algorithm V K C F → Algorithm V K C F
  unfolding when set_node_id set_total_nodes set_keypair set_community set_format
  propagate c a =
      let a1 = when c.node_id set_node_id a in
      let a2 = if nat_eqb c.total_nodes 0 then a1 else set_total_nodes c.total_nodes a1 in
      let a3 = when c.keypair set_keypair a2 in
      let a4 = when c.community set_community a3 in when c.format set_format a4

  unfoldable pub set_name : String → Algorithm V K C F → Algorithm V K C F
  set_name name (algorithm old cls c t fields cs) = algorithm name cls c t fields cs

  -- `self._children[name] = child`, where a present name keeps its place
  unfoldable pub put_child : String → Algorithm V K C F → Children V K C F → Children V K C F
  put_child name a no_child = child true name a no_child
  put_child name a (child registered other b cs) =
      let rest = child registered other b (put_child name a cs) in
      if other == name then child true name a cs else rest

  unfoldable pub register_child : String → Algorithm V K C F → Algorithm V K C F → Algorithm V K C F
  unfolding propagate set_name put_child
  register_child name a (algorithm parent cls c t fields cs) =
      algorithm parent cls c t fields (put_child name (propagate c (set_name name a)) cs)

  -- `Algorithm.__init__` once more: the children stay attributes, and are in no `_children`
  unfoldable pub forget_children : Children V K C F → Children V K C F
  forget_children no_child = no_child
  forget_children (child registered name a cs) = child false name a (forget_children cs)

  unfoldable pub original_init : Bool → Algorithm V K C F → Algorithm V K C F
  unfolding forget_children
  original_init false a = a
  original_init true (algorithm name cls c t fields cs) =
      algorithm "" cls blank false fields (forget_children cs)

unfoldable pub set_default :
    {V : Type 0}
    → String
    → (default : Option V) → (default_factory : Option V) → Dict String V
    → Dict String V
set_default name (some v) made d = put d name v
set_default name none (some v) d = put d name v
set_default name none none d = d

unfoldable pub read_field :
    {V : Type 0} → String → Field V → Option V → Dict String V → Result (Dict String V)
unfolding set_default
read_field name field (some v) d = ok (put d name v)
read_field name field none d =
    if field.required
    then raises value_error
    else ok (set_default name field.default field.default_factory d)

module _ {V : Type 0} (yaml : Yaml V) where
  -- the loop over the configuration fields of the class
  unfoldable pub read_fields : Dict String (Field V) → V → Dict String V → Result (Dict String V)
  unfolding read_field
  read_fields [] config d = ok d
  read_fields ((name, field) ∷ fields) config d = do
    d' ← read_field name field (yaml.get_field config name) d
    read_fields fields config d'

  -- `config.get(name, {})`
  unfoldable pub child_config : Option V → V
  child_config none = yaml.empty
  child_config (some v) = v

  module _ {K C F : Type 0} where
    unfoldable mutual
      unfolding read_fields child_config register_child original_init

      -- `new_init`
      pub new_init : Class V → V → Result (Algorithm V K C F)
      new_init (class info fields) config = do
        attributes ← read_fields info.config_fields config []
        a ← init_children fields config (algorithm "" info blank false attributes no_child)
        ok (original_init info.resets a)

      pub init_children : ChildFields V → V → Algorithm V K C F → Result (Algorithm V K C F)
      init_children no_field config a = ok a
      init_children (child_field name cls fields) config a = do
        b ← new_init cls (child_config (yaml.get_field config name))
        init_children fields config (register_child name b a)
