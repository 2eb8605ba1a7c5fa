-- ===== src/Chain/Paths.antt =====
-- message_chain.py: a chain is taken up once, and goes on with this node as its last name.
use distributed_algo.Prelude.{
  String, List, [], ◌∷◌, ◌++◌, Bool, true, false, ◌≡◌, refl, ap, ◌∙◌, ◌||◌, Option, none, some, inl,
  inr, arith, eq_string, eq_list, contains, contains-add, add, length, length-append,
  length-add_new, IsDistinct, IsDistinct-add, if◌then◌else◌, if-cases, Bool-cases,
}
use distributed_algo.Chain.{
  ChainMessage, SignedMessage, MessageChain, Turn, Task, node_path, is_source, send_each, extend,
  receive_chain, resume, on_start,
}

-- The paths that were received are those that were processed, each of them once.
pub record IsConsistent (s : MessageChain) : Type 0 where
  pub distinct : IsDistinct s.processed_chains
  pub same : (c : List String) → contains s.received_chains c ≡ contains s.processed_chains c
  pub size : length s.received_chains ≡ length s.processed_chains

contains-append :
    (xs ys : List (List String)) (c : List String)
    → contains (xs ++ ys) c ≡ (contains xs c || contains ys c)
unfolding contains
contains-append [] ys c = refl
contains-append (x ∷ xs) ys c = ground (arith, contains-append xs ys c)

take_up : List String → MessageChain → MessageChain
take_up path s = record s {
  processed_chains = add path s.processed_chains;
  received_chains = s.received_chains ++ path ∷ [];
}

take_up-IsConsistent :
    (path : List String) (s : MessageChain)
    → contains s.processed_chains path ≡ false
    → IsConsistent s
    → IsConsistent (take_up path s)
unfolding take_up contains
take_up-IsConsistent path s new h = record {
  distinct = IsDistinct-add path s.processed_chains h.distinct;
  same = λ c. ground (
    arith,
    contains-append s.received_chains (path ∷ []) c,
    contains-add path c s.processed_chains,
    h.same c,
  );
  size = omega (
    arith,
    length-append s.received_chains (path ∷ []),
    length-add_new path s.processed_chains new,
    h.size,
  );
}

module _ {G : Type 0} where
  send_each-IsConsistent :
      (chain : List (SignedMessage G)) (except : Option String) (terminates : Bool)
      (peers : List String) (s : MessageChain)
      → IsConsistent s
      → IsConsistent (send_each chain except terminates peers s).node
  unfolding send_each
  send_each-IsConsistent chain except terminates [] s h =
      if-cases IsConsistent terminates
        (λ e. record { distinct = h.distinct; same = h.same; size = h.size }) (λ e. h)
  send_each-IsConsistent chain except terminates (p ∷ peers) s h =
      if-cases (λ (t : Turn G). IsConsistent t.node) (is_source except p)
        (λ e. send_each-IsConsistent chain except terminates peers s h) (λ e. h)

  -- What a turn sends: the chain, to a peer that it has not come from.
  abbrev pub SendsChain :
      List (SignedMessage G) → Option String → Option (String × List (SignedMessage G)) → Type 0
  SendsChain chain except none = Unit
  SendsChain chain except (some (p, c)) = (is_source except p ≡ false) × (c ≡ chain)

  send_each-SendsChain :
      (chain : List (SignedMessage G)) (except : Option String) (terminates : Bool)
      (peers : List String) (s : MessageChain)
      → SendsChain chain except (send_each chain except terminates peers s).sends
  unfolding send_each
  send_each-SendsChain chain except terminates [] s = tt
  send_each-SendsChain chain except terminates (p ∷ peers) s =
      if-cases (λ (t : Turn G). SendsChain chain except t.sends) (is_source except p)
        (λ e. send_each-SendsChain chain except terminates peers s) (λ e. (e, refl))

  node_path-append :
      (xs ys : List (SignedMessage G)) → node_path (xs ++ ys) ≡ node_path xs ++ node_path ys
  unfolding node_path
  node_path-append [] ys = refl
  node_path-append (x ∷ xs) ys = rw (node_path-append xs ys) refl

  module _ (sign : ChainMessage → SignedMessage G) where
    -- The three turns of a node keep the record of its chains consistent.
    pub turns-IsConsistent :
        (src : String) (chain : List (SignedMessage G)) (k : Task G) (s : MessageChain)
        → IsConsistent s
        → IsConsistent (receive_chain sign src chain s).node
          × IsConsistent (resume k s).node
          × IsConsistent (on_start sign s).node
    unfolding receive_chain resume on_start take_up
    turns-IsConsistent src chain k s h = (
      received src chain,
      send_each-IsConsistent k.chain k.except k.terminates k.peers s h,
      if-cases (λ (t : Turn G). IsConsistent t.node) s.is_initiator
          (λ e. send_each-IsConsistent _ none true s.peers s h) (λ e. h),
    )
      where
        received :
            (src : String) (chain : List (SignedMessage G))
            → IsConsistent (receive_chain sign src chain s).node
        received src [] = h
        received src (first ∷ rest) =
            let path = node_path (first ∷ rest) in
            if-cases (λ (t : Turn G). IsConsistent t.node) (contains s.processed_chains path)
              (λ e. h)
              (λ e.
                send_each-IsConsistent _ (some src) _ s.peers (take_up path s)
                  (take_up-IsConsistent path s e h))

    -- A chain that is new goes on, to peers that it has not come from, with all its names in order
    -- and this node's behind them; a chain of a path that was taken up before is not sent.
    pub receive_chain-SendsChain :
        (src : String) (first : SignedMessage G) (chain : List (SignedMessage G)) (s : MessageChain)
        → let all = first ∷ chain in
          let t = receive_chain sign src all s in
          if contains s.processed_chains (node_path all)
          then (t.sends ≡ none)
          else SendsChain (all ++ sign (extend sign first chain s) ∷ []) (some src) t.sends
    unfolding receive_chain
    receive_chain-SendsChain src first chain s =
        elim (Bool-cases (contains s.processed_chains (node_path (first ∷ chain)))) [
          | inl h ↦ rw h refl
          | inr h ↦ rw h (send_each-SendsChain _ (some src) _ s.peers _)
        ]

    -- If signing keeps the message, the path of the chain that goes on is the old one and this node.
    pub node_path-extend :
        (first : SignedMessage G) (chain : List (SignedMessage G)) (s : MessageChain)
        → ((m : ChainMessage) → (sign m).value ≡ m)
        → node_path ((first ∷ chain) ++ sign (extend sign first chain s) ∷ [])
          ≡ node_path (first ∷ chain) ++ s.id ∷ []
    unfolding extend node_path
    node_path-extend first chain s keeps =
        node_path-append (first ∷ chain) (sign (extend sign first chain s) ∷ [])
        ∙ ap (λ (m : ChainMessage). node_path (first ∷ chain) ++ m.node_name ∷ [])
            (keeps (extend sign first chain s))
