-- ===== src/Basic/Quorum.antt =====
-- bracha_basic.py: what `ready` does to the slot of its message id, on every branch.
use distributed_algo.Prelude.{
  ◌+◌, ◌*◌, String, List, ◌∷◌, Bool, true, false, not, ◌&&◌, ◌≡◌, refl, Option, none, some, inl,
  inr, eq_string, add, length, leb, if◌then◌else◌, Bool-cases, Returns,
}
use distributed_algo.Bracha.Message.{BrachaMessage}
use distributed_algo.Bracha.Ledger.{Ledger}
use distributed_algo.Bracha.Slot.{Slot, slot, IsAligned, Updates, init_state-Updates}
use distributed_algo.Bracha.Slot.Writes.{
  add_ready_after, mark_ready_after, mark_delivered_after, reads,
}
use distributed_algo.Basic.{
  Bracha, Turn, Task, delivery, deliver, broadcast, bracha, send_ready, ready,
}

-- A turn leaves the slot `spec` at `m` and every other slot alone, makes the call, delivers, and goes on
-- with the rest.
pub record Does (l : Ledger) (m : String) (spec : Slot)
    (call : Option (String × String × BrachaMessage)) (told : Option BrachaMessage)
    (later : Option Task) (t : Turn) : Type 0 where
  pub ledger : Updates l m spec t.node.ledger
  pub called : t.call ≡ call
  pub delivery : t.delivers ≡ told
  pub continues : t.rest ≡ later

abbrev does :
    {l : Ledger} {m : String} {spec : Slot} (t : Turn)
    → Updates l m spec t.node.ledger
    → Does l m spec t.call t.delivers t.rest t
does t u = record { ledger = u; called = refl; delivery = refl; continues = refl }

abbrev pub ready_due : Bracha → Slot → Bool
ready_due s τ = not τ.sent_ready && leb (s.f + 1) (length τ.readys)

abbrev pub delivery_due : Bracha → Slot → Bool
delivery_due s τ = not τ.delivered && leb (2 * s.f + 1) (length τ.readys)

-- What the READY that was decided on, or the delivery, does to the slot `τ`.
-- The READY goes to `p` first; then to the peers `ps`, and then the delivery is checked.
abbrev pub AfterReady :
    BrachaMessage → Bracha → String → List String → Ledger → Bool → Slot → Turn → Type 0
AfterReady msg s p ps l true τ =
    Does l msg.msg_id (record τ { sent_ready = true }) (some (p, "ready", msg)) none
      (some (record { method = "ready"; message = msg; peers = ps; next = delivery }))
AfterReady msg s p ps l false τ =
    if delivery_due s τ
    then Does l msg.msg_id (record τ { delivered = true }) none (some msg) none
    else Does l msg.msg_id τ none none none

module _ (msg : BrachaMessage) (s : Bracha) {l : Ledger} {τ : Slot} where
  deliver-Does :
      (p : String) (ps : List String)
      → s.deliver_threshold ≡ 2 * s.f + 1
      → Updates l msg.msg_id τ s.ledger
      → Returns (deliver msg s) (AfterReady msg s p ps l false τ)
  unfolding deliver
  deliver-Does p ps d u =
      let (i0, i1, i2, i3, i4) = reads u in
      rw (i4, i1, d)
        (elim (Bool-cases (delivery_due s τ)) [
          | inl h ↦ rw h (does _ (mark_delivered_after u))
          | inr h ↦ rw h (does _ u)
        ])

  send_ready-Does :
      (will : Bool) (p : String) (ps : List String)
      → s.peers ≡ p ∷ ps
      → s.deliver_threshold ≡ 2 * s.f + 1
      → Updates l msg.msg_id τ s.ledger
      → Returns (send_ready will msg s) (AfterReady msg s p ps l will τ)
  unfolding send_ready bracha broadcast
  send_ready-Does true p ps e d u = let v = mark_ready_after u in rw e (does _ v)
  send_ready-Does false p ps e d u = deliver-Does p ps d u

-- On a well-formed ledger `ready` returns, at a node that has a peer and whose threshold is 2 f + 1. It
-- counts the vote; a node that has not sent READY sends it on f + 1 votes, to its first peer first,
-- and goes on with the others and then with the check for the delivery; where it sends nothing, it
-- delivers the message on 2 f + 1 votes, once.
pub ready-AfterReady :
    (msg : BrachaMessage) (s : Bracha) (src p : String) (ps : List String)
    → IsAligned s.ledger
    → s.peers ≡ p ∷ ps
    → s.deliver_threshold ≡ 2 * s.f + 1
    → let σ = slot s.ledger msg.msg_id in
      let τ = record σ { readys = add src σ.readys } in
      Returns (ready src msg s) (AfterReady msg s p ps s.ledger (ready_due s τ) τ)
unfolding ready
ready-AfterReady msg s src p ps a e d =
    let σ = slot s.ledger msg.msg_id in
    let (l, w, v) = add_ready_after (init_state-Updates msg.msg_id s.ledger a) src in
    let (i0, i1, i2, i3, i4) = reads v in
    rw (w, i3, i1)
      (send_ready-Does msg (record s { ledger = l })
        (ready_due s (record σ { readys = add src σ.readys })) p ps e d v)
