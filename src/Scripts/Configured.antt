-- ===== src/Scripts/Configured.antt =====
-- distbench-py/scripts/generate_configs.py: the entry that each node gets in a file.
use distributed_algo.Prelude.{
  ℕ, zero, suc, ◌+◌, ◌*◌, ◌-◌, ◌<◌, String, List, [], Bool, some, Dict, contains, eq_string, leb,
  ltb, nat_eqb, ◌&&◌, if◌then◌else◌, ◌≡◌, refl, sym, ap, subst, ◌∙◌, arith, get, put, Result, ok,
  get-put_same, get-put_other, get-index, Bool-cases, inl, inr, nat_eqb_iff, Option,
}
use distributed_algo.Scripts.{
  NodeConfig, Chosen, names, node_config, neighbours_of, entries, generate_config, byzantine_nodes,
  sender_nodes, generate_ring_topology,
}
use distributed_algo.Scripts.Connected.{ring_links, same_name, rounds_lem, neighbours_of-ring_links}

module _ (node_name : ℕ → String) (injective : (i j : ℕ) → node_name i ≡ node_name j → i ≡ j) where
  contains-names :
      (first count i : ℕ)
      → contains (names node_name first count) (node_name i)
        ≡ (leb first i && ltb i (first + count))
  unfolding names contains
  contains-names first zero i = ground arith
  contains-names first (suc count) i =
      ground (arith, same_name node_name injective first i, contains-names (first + 1) count i)

  module _ {F : Type 0} (n f num_byzantine num_senders : ℕ) (algorithm : Chosen)
      (byzantine_mode : String) (optimization_flags : Option F) where
    abbrev entry : ℕ → List String → NodeConfig F
    entry =
        node_config node_name n f num_byzantine num_senders algorithm byzantine_mode
          optimization_flags

    abbrev file : Dict String (List String) → ℕ → Result (Dict String (NodeConfig F))
    file =
        entries node_name n f num_byzantine num_senders algorithm byzantine_mode optimization_flags

    entries_lem :
        (topology : Dict String (List String)) (links : ℕ → List String) (m : ℕ)
        → ((i : ℕ) → i < m → get topology (node_name i) ≡ some (links i))
        → (config : Dict String (NodeConfig F)) × (file topology m ≡ ok config)
          × ((i : ℕ) → i < m → get config (node_name i) ≡ some (entry i (links i)))
    unfolding entries
    entries_lem topology links zero known = ([], refl, λ i h. absurd (omega arith))
    entries_lem topology links (suc m) known =
        let (config, made, each) = entries_lem topology links m (λ i h. known i (omega arith)) in
        (
          put config (node_name m) (entry m (links m)),
          rw (made, get-index topology (node_name m) (links m) (known m (omega arith))) refl,
          λ i h. elim (Bool-cases (nat_eqb i m)) [
            | inl last ↦
                subst
                  (λ x.
                    get (put config (node_name m) (entry m (links m))) (node_name x)
                    ≡ some (entry x (links x)))
                  (sym ((nat_eqb_iff i m).0 last)) (get-put_same config (node_name m) _)
            | inr earlier ↦
                get-put_other config (node_name m) (node_name i) _
                  (same_name node_name injective m i ∙ ground (arith, earlier))
                ∙ each i (ground (arith, earlier, h))
          ],
        )

    -- For a ring of more than `2 f + 1` nodes with different names, a file is made, and in it every node
    -- has an entry: its port is 10000 plus its number, it is a sender if and only if it is one of the
    -- first `num_senders`, it has the Byzantine mode if and only if it is one of the last
    -- `num_byzantine` and else is honest, and its neighbours are its links in the ring.
    pub generate_config-node_config :
        (i j : ℕ)
        → 2 * f + 1 < n
        → i < n
        → j < n
        → (config : Dict String (NodeConfig F)) × (c : NodeConfig F) × (generate_config node_name n
              f num_byzantine num_senders algorithm byzantine_mode optimization_flags
            ≡ ok config)
          × (get config (node_name i) ≡ some c)
          × (c.port ≡ 10000 + i)
          × (c.is_sender ≡ ltb i num_senders)
          × (c.behavior_mode ≡ (if leb n (i + num_byzantine) then byzantine_mode else "HONEST"))
          × (contains c.neighbours (node_name j) ≡ ring_links n (2 * f + 1) i j)
    unfolding generate_config generate_ring_topology node_config sender_nodes byzantine_nodes
    generate_config-node_config i j enough hi hj =
        let links = neighbours_of node_name n (2 * f + 1) in
        let (config, made, each) =
          entries_lem (generate_ring_topology node_name n (2 * f + 1)) links n
            (λ i h. rounds_lem node_name injective n (2 * f + 1) i n h) in
        (
          config,
          entry i (links i),
          made,
          each i hi,
          refl,
          senders i,
          ap (λ (b : Bool). if b then byzantine_mode else "HONEST") (byzantine i hi),
          (neighbours_of-ring_links node_name injective n (2 * f + 1) i j enough hi hj).1,
        )
      where
        senders :
            (i : ℕ)
            → contains (sender_nodes node_name num_senders) (node_name i) ≡ ltb i num_senders
        senders i = ground (arith, contains-names 0 num_senders i)

        byzantine :
            (i : ℕ)
            → i < n
            → contains (byzantine_nodes node_name n num_byzantine) (node_name i)
              ≡ leb n (i + num_byzantine)
        byzantine i h =
            ground (arith, contains-names (n - num_byzantine) (n - (n - num_byzantine)) i, h)
