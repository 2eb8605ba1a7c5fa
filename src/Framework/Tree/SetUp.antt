-- ===== src/Framework/Tree/SetUp.antt =====
-- distbench-py/distbench/node.py: what the constructor of a node sets in its algorithm, and which of
-- the child algorithms it reaches.
use distributed_algo.Prelude.{
  ℕ, String, [], Bool, true, false, Option, none, some, ◌≡◌, refl, sym, subst, ◌==◌, eq_string,
  if-cases, ok, IfOk, bind-IfOk, IfOk-any, IfOk-ok,
}
use distributed_algo.Framework.Tree.{
  Class, class, ChildFields, no_field, child_field, Context, blank, Algorithm, algorithm, Children,
  no_child, child, spread, set_node_id, set_total_nodes, set_keypair, set_community, set_format,
  spread_children,
}
use distributed_algo.Framework.Tree.Init.{
  Yaml, propagate, when, set_name, put_child, register_child, forget_children, original_init,
  read_fields, child_config, new_init, init_children,
}

-- the five assignments of `Node.__init__`
unfoldable pub set_up :
    {V K C F : Type 0} → String → ℕ → K → F → C → Algorithm V K C F → Algorithm V K C F
unfolding set_node_id set_total_nodes set_keypair set_format set_community
set_up node_id total keypair format community a =
    set_community community
      (set_format format (set_keypair keypair (set_total_nodes total (set_node_id node_id a))))

-- what a node and its registered descendants know behind the constructor
abbrev pub known : {K C F : Type 0} → String → ℕ → K → F → Option C → Context K C F
known node_id total keypair format community = record {
  node_id = some node_id;
  total_nodes = total;
  keypair = some keypair;
  community = community;
  format = some format;
}

module _ {V K C F : Type 0} where
  -- An algorithm knows `own`, its registered descendants know `below`, and below a child that is not
  -- registered nothing is known.
  abbrev mutual
    pub Follows : (own below : Context K C F) → Algorithm V K C F → Type 0
    Follows own below (algorithm name cls c t fields cs) = (c ≡ own) × EachFollows below cs

    pub EachFollows : (below : Context K C F) → Children V K C F → Type 0
    EachFollows below no_child = Unit
    EachFollows below (child true name a cs) = Follows below below a × EachFollows below cs
    EachFollows below (child false name a cs) = Follows blank blank a × EachFollows below cs

  mutual
    unfolding spread

    spread-Follows :
        (f : Context K C F → Context K C F) (own below : Context K C F) (a : Algorithm V K C F)
        → Follows own below a
        → Follows (f own) (f below) (spread f a)
    spread-Follows f own below (algorithm name cls c t fields cs) (e, h) =
        (rw e refl, spread-EachFollows f below cs h)

    spread-EachFollows :
        (f : Context K C F → Context K C F) (below : Context K C F) (cs : Children V K C F)
        → EachFollows below cs
        → EachFollows (f below) (spread_children f cs)
    spread-EachFollows f below no_child h = tt
    spread-EachFollows f below (child true name a cs) (h, later) =
        (spread-Follows f below below a h, spread-EachFollows f below cs later)
    spread-EachFollows f below (child false name a cs) (h, later) =
        (h, spread-EachFollows f below cs later)

  set_community-Follows :
      (community : C) (own below : Context K C F) (a : Algorithm V K C F)
      → Follows own below a
      → Follows (record own { community = some community }) below (set_community community a)
  unfolding set_community
  set_community-Follows community own below (algorithm name cls c t fields cs) (e, h) =
      (rw e refl, h)

  abbrev IsBlank : Algorithm V K C F → Type 0
  IsBlank a = Follows blank blank a

  set_name-IsBlank : (name : String) (a : Algorithm V K C F) → IsBlank a → IsBlank (set_name name a)
  unfolding set_name
  set_name-IsBlank name (algorithm old cls c t fields cs) h = h

  put_child-EachFollows :
      (name : String) (a : Algorithm V K C F) (cs : Children V K C F)
      → IsBlank a
      → EachFollows blank cs
      → EachFollows blank (put_child name a cs)
  unfolding put_child
  put_child-EachFollows name a no_child h k = (h, tt)
  put_child-EachFollows name a (child true other b cs) h (k, later) =
      if-cases (λ (cs : Children V K C F). EachFollows blank cs) (other == name) (λ e. (h, later))
        (λ e. (k, put_child-EachFollows name a cs h later))
  put_child-EachFollows name a (child false other b cs) h (k, later) =
      if-cases (λ (cs : Children V K C F). EachFollows blank cs) (other == name) (λ e. (h, later))
        (λ e. (k, put_child-EachFollows name a cs h later))

  register_child-IsBlank :
      (name : String) (a b : Algorithm V K C F)
      → IsBlank a
      → IsBlank b
      → IsBlank (register_child name a b)
  unfolding register_child propagate when
  register_child-IsBlank name a (algorithm parent cls c t fields cs) h (e, k) = (
    e,
    subst (λ x. EachFollows blank (put_child name (propagate x (set_name name a)) cs)) (sym e)
        (put_child-EachFollows name (set_name name a) cs (set_name-IsBlank name a h) k),
  )

  forget_children-EachFollows :
      (cs : Children V K C F) → EachFollows blank cs → EachFollows blank (forget_children cs)
  unfolding forget_children
  forget_children-EachFollows no_child h = tt
  forget_children-EachFollows (child true name a cs) (h, later) =
      (h, forget_children-EachFollows cs later)
  forget_children-EachFollows (child false name a cs) (h, later) =
      (h, forget_children-EachFollows cs later)

  original_init-IsBlank :
      (resets : Bool) (a : Algorithm V K C F) → IsBlank a → IsBlank (original_init resets a)
  unfolding original_init
  original_init-IsBlank false a h = h
  original_init-IsBlank true (algorithm name cls c t fields cs) (e, h) =
      (refl, forget_children-EachFollows cs h)

module _ {V : Type 0} (yaml : Yaml V) (K C F : Type 0) where
  mutual
    unfolding new_init

    new_init-IsBlank :
        (cls : Class V) (config : V)
        → IfOk (IsBlank {V = V} {K = K} {C = C} {F = F}) (new_init yaml cls config)
    new_init-IsBlank (class info fields) config =
        bind-IfOk _ _ (read_fields yaml info.config_fields config []) _ (IfOk-any _) (λ d _.
          bind-IfOk _ _
            (init_children yaml fields config (algorithm "" info blank false d no_child)) _
            (init_children-IsBlank fields config _ (refl, tt))
            (λ a h. original_init-IsBlank info.resets a h))

    init_children-IsBlank :
        (fields : ChildFields V) (config : V) (a : Algorithm V K C F)
        → IsBlank a
        → IfOk (IsBlank {V = V} {K = K} {C = C} {F = F}) (init_children yaml fields config a)
    init_children-IsBlank no_field config a h = h
    init_children-IsBlank (child_field name cls fields) config a h =
        bind-IfOk _ _ (new_init yaml cls (child_config yaml (yaml.get_field config name))) _
          (new_init-IsBlank cls _)
          (λ b k. init_children-IsBlank fields config _ (register_child-IsBlank name b a k h))

module _ {V : Type 0} (yaml : Yaml V) {K C F : Type 0} where
  -- In an algorithm that the constructor of its class returns, and that the constructor of its node
  -- has set up, the node's id, the number of nodes, the key pair and the format are known to the
  -- algorithm and to every registered descendant, and to nobody below a child that is not registered;
  -- and the community is known to the algorithm alone.
  pub set_up-Follows :
      (cls : Class V) (config : V) (a : Algorithm V K C F) (node_id : String) (total : ℕ)
      (keypair : K) (format : F) (community : C)
      → new_init yaml cls config ≡ ok a
      → Follows
          (known node_id total keypair format (some community))
          (known node_id total keypair format none)
          (set_up node_id total keypair format community a)
  unfolding set_up set_node_id set_total_nodes set_keypair set_format
  set_up-Follows cls config a node_id total keypair format community built =
      let made : IsBlank a = IfOk-ok IsBlank _ a (new_init-IsBlank yaml K C F cls config) built in
      set_community-Follows community _ _ _ (
        spread-Follows (λ c. record c { format = some format }) _ _ _
          (spread-Follows (λ c. record c { keypair = some keypair }) _ _ _
            (spread-Follows (λ c. record c { total_nodes = total }) _ _ _
              (spread-Follows (λ c. record c { node_id = some node_id }) blank blank a made))))
