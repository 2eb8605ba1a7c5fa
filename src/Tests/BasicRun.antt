-- ===== src/Tests/BasicRun.antt =====
-- A node of bracha_basic.py that hears a READY.
use distributed_algo.Prelude.{[], ◌∷◌, refl, false, eq_string, add, contains, has, get_or, Returns}
use distributed_algo.Bracha.Message.{BrachaMessage}
use distributed_algo.Bracha.Ledger.{empty_ledger}
use distributed_algo.Bracha.Slot.{slot, IsAligned}
use distributed_algo.Basic.{Bracha, init, ready}
use distributed_algo.Basic.Quorum.{AfterReady, ready_due, ready-AfterReady}

program : Unit {0}
unfolding add contains has get_or init slot
program = tt

abbrev node : Bracha
node = init "c" ("a" ∷ "b" ∷ []) false 0

abbrev ready_of_a : BrachaMessage
ready_of_a = record { phase = "ready"; sender = "a"; msg_id = "x"; payload = "hello" }

empty-IsAligned : IsAligned node.ledger
unfolding program
empty-IsAligned = record {
  readys = λ j. refl;
  sent_echo = λ j. refl;
  sent_ready = λ j. refl;
  delivered = λ j. refl;
}

ready-AfterReady_example :
    let τ = record (slot empty_ledger "x") { readys = "b" ∷ [] } in
    Returns
      (ready "b" ready_of_a node)
      (AfterReady ready_of_a node "a" ("b" ∷ []) empty_ledger (ready_due node τ) τ)
unfolding program
ready-AfterReady_example =
    ready-AfterReady ready_of_a node "b" "a" ("b" ∷ []) empty-IsAligned refl refl
