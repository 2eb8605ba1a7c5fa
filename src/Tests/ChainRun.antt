-- ===== src/Tests/ChainRun.antt =====
-- A node of message_chain.py that hears a chain of two messages, twice.
use distributed_algo.Prelude.{
  ℕ, String, [], ◌∷◌, true, false, ◌≡◌, refl, some, none, eq_string, eq_list, contains, add,
  IsDistinct,
}
use distributed_algo.Chain.{
  ChainMessage, SignedMessage, MessageChain, Task, init, node_path, last_of, send_each, extend,
  receive_chain, resume, on_start,
}
use distributed_algo.Chain.Paths.{IsConsistent, turns-IsConsistent}

program : Unit {0}
unfolding contains add IsDistinct init node_path last_of send_each extend receive_chain resume
    on_start
program = tt

abbrev sign : ChainMessage → SignedMessage ℕ
sign m = record { value = m; signature = 0; signer = "c" }

abbrev hop : ℕ → String → SignedMessage ℕ
hop n name = record {
  value = record { hop_count = n; original_value = "hi"; node_name = name };
  signature = 0;
  signer = name;
}

abbrev node : MessageChain
node = init "c" ("a" ∷ "b" ∷ []) false "" 5

abbrev after : MessageChain
unfolding program
after = (receive_chain sign "b" (hop 0 "a" ∷ hop 1 "b" ∷ []) node).node

goes_to_a :
    (receive_chain sign "b" (hop 0 "a" ∷ hop 1 "b" ∷ []) node).sends
    ≡ some ("a", hop 0 "a" ∷ hop 1 "b" ∷ sign (hop 2 "c").value ∷ [])
unfolding program
goes_to_a = refl

node-IsConsistent : IsConsistent node
unfolding program
node-IsConsistent = record { distinct = tt; same = λ c. refl; size = refl }

turns-IsConsistent_example :
    let k : Task ℕ = record {
      chain = hop 0 "a" ∷ [];
      except = none;
      peers = "a" ∷ [];
      terminates = true;
    } in
    IsConsistent (receive_chain sign "b" (hop 0 "a" ∷ []) node).node
    × IsConsistent (resume k node).node
    × IsConsistent (on_start sign node).node
turns-IsConsistent_example =
    turns-IsConsistent sign "b" (hop 0 "a" ∷ [])
      (record { chain = hop 0 "a" ∷ []; except = none; peers = "a" ∷ []; terminates = true }) node
      node-IsConsistent
