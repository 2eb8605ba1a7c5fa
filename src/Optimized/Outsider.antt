-- ===== src/Optimized/Outsider.antt =====
-- bracha_optimized.py: the committees restrict a node also where `enable_reduced_messages` is off.
use distributed_algo.Prelude.{
  ℕ, String, Bool, true, false, eq_string, ◌≡◌, ap, arith, inl, inr, Bool-cases, Returns,
  Returns-map, add, ◌||◌, ◌&&◌, not,
}
use distributed_algo.Bracha.Message.{BrachaMessage}
use distributed_algo.Bracha.Ledger.{Ledger}
use distributed_algo.Bracha.Slot.{Slot, slot, IsAligned}
use distributed_algo.Optimized.Node.{
  BrachaOptimized, should_generate_echo, should_generate_ready, Turn,
}
use distributed_algo.Optimized.Handlers.{echo, ready}
use distributed_algo.Optimized.Expected.{
  echoed, AfterEcho, AfterReady, AfterImplied, quorum_due, ready_due, echo_due, delivery_due,
}
use distributed_algo.Optimized.Effect.{echo-Does, ready-AfterImplied}

ready_due_off :
    (msg : BrachaMessage) (s : BrachaOptimized) (τ : Slot)
    → should_generate_ready msg.sender s ≡ false
    → ready_due msg s τ ≡ false
ready_due_off msg s τ out = ground arith

-- The turn leaves the flag `sent_ready` of the message id as it is in `τ`.
abbrev pub KeepsReady : BrachaMessage → Slot → Turn → Type 0
KeepsReady msg τ t = (slot t.node.ledger msg.msg_id).sent_ready ≡ τ.sent_ready

module _ (msg : BrachaMessage) (s : BrachaOptimized) (l : Ledger) where
  echo-keeps :
      (due : Bool) (τ : Slot) (t : Turn)
      → quorum_due msg s τ ≡ false
      → AfterEcho msg s l due τ t
      → KeepsReady msg τ t
  echo-keeps true τ t out d = ap (λ (ρ : Slot). ρ.sent_ready) d.ledger.here
  echo-keeps false τ t out d = ap (λ (ρ : Slot). ρ.sent_ready) (rw out at d).ledger.here

  ready-keeps : (τ : Slot) (t : Turn) → AfterReady msg s l false τ t → KeepsReady msg τ t
  ready-keeps τ t d = elim (Bool-cases (delivery_due s τ)) [
    | inl h ↦ ap (λ (ρ : Slot). ρ.sent_ready) (rw h at d).ledger.here
    | inr h ↦ ap (λ (ρ : Slot). ρ.sent_ready) (rw h at d).ledger.here
  ]

  implied-keeps :
      (sent : Bool) (τ : Slot) (t : Turn) → AfterImplied msg s l false sent τ t → KeepsReady msg τ t
  implied-keeps true τ t d = ready-keeps τ t d
  implied-keeps false τ t d = elim (Bool-cases (should_generate_echo msg.sender s)) [
    | inl h ↦ ap (λ (ρ : Slot). ρ.sent_ready) (rw h at d).ledger.here
    | inr h ↦ ready-keeps (echoed s.id τ) t (rw h at d)
  ]

-- A node outside of the committee for the READYs of the sender, as `should_generate_ready` tells,
-- returns from `echo` and from `ready`, and does not become one that has sent READY, whatever the
-- flag `enable_reduced_messages` says.
pub outsider-silent :
    (now : ℕ) (src : String) (msg : BrachaMessage) (s : BrachaOptimized)
    → IsAligned s.ledger
    → should_generate_ready msg.sender s ≡ false
    → Returns (echo src msg s) (KeepsReady msg (slot s.ledger msg.msg_id))
      × Returns (ready now src msg s) (KeepsReady msg (slot s.ledger msg.msg_id))
outsider-silent now src msg s a out =
    let σ = slot s.ledger msg.msg_id in
    let e = record σ { echos = add src σ.echos } in
    let r = record σ { readys = add src σ.readys } in
    (
      Returns-map (echo src msg s)
          (λ t d.
            echo-keeps msg s s.ledger (s.enable_echo_amplification && echo_due msg s e) e t
              (ground arith) d)
          (echo-Does msg s a src),
      Returns-map (ready now src msg s)
          (λ t d.
            implied-keeps msg s s.ledger (not s.enable_echo_amplification || σ.sent_echo) r t
              (rw (ready_due_off msg s r out) at d))
          (ready-AfterImplied msg s a now src),
    )
