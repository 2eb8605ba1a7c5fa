-- ===== src/Optimized/Expected.antt =====
-- What the handlers of bracha_optimized.py are to do to the slot of their message id.
use distributed_algo.Prelude.{
  ◌+◌, String, List, [], ◌∷◌, Bool, true, false, not, ◌&&◌, ◌≡◌, refl, Option, none, some, inl, inr,
  eq_string, add, length, leb, ltb, nat_eqb, if◌then◌else◌, Bool-cases,
}
use distributed_algo.Bracha.Message.{BrachaMessage}
use distributed_algo.Bracha.Ledger.{Ledger}
use distributed_algo.Bracha.Slot.{Slot, Updates}
use distributed_algo.Optimized.Node.{
  BrachaOptimized, should_generate_echo, should_generate_ready, Out, by_dolev, Task, ready_check,
  deliver_check, Turn,
}
use distributed_algo.Optimized.Handlers.{with_phase, check_completion, count_delivered}

-- A turn leaves the slot `spec` at `m` and every other slot alone, hands over `sends`, delivers
-- `told`, and has `tail` to do.
pub record Does (l : Ledger) (m : String) (spec : Slot) (sends : List Out)
    (told : Option BrachaMessage) (tail : Option Task) (t : Turn) : Type 0 where
  pub ledger : Updates l m spec t.node.ledger
  pub output : t.out ≡ sends
  pub delivery : t.delivers ≡ told
  pub rest : t.rest ≡ tail

abbrev pub does :
    {l : Ledger} {m : String} {spec : Slot} (t : Turn)
    → Updates l m spec t.node.ledger
    → Does l m spec t.out t.delivers t.rest t
does t u = record { ledger = u; output = refl; delivery = refl; rest = refl }

pub completed :
    {l : Ledger} {m : String} {spec : Slot} {told : Option BrachaMessage} (s : BrachaOptimized)
    → Updates l m spec s.ledger
    → Does l m spec [] told none
        (record { node = check_completion s; out = []; delivers = told; rest = none })
unfolding check_completion
completed s u =
    elim (Bool-cases (
      ltb 0 (length s.expected_messages)
      && nat_eqb (length s.expected_messages) (count_delivered s))) [
        | inl h ↦ rw h (does _ u)
        | inr h ↦ rw h (does _ u)
      ]

abbrev pub echoed : String → Slot → Slot
echoed me σ = record σ { sent_echo = true; echos = add me σ.echos }

-- the decisions of the handlers, on a slot that has counted the vote
abbrev pub echo_due : BrachaMessage → BrachaOptimized → Slot → Bool
echo_due msg s σ =
    not σ.sent_echo && leb (s.f + 1) (length σ.echos) && should_generate_echo msg.sender s

abbrev pub quorum_due : BrachaMessage → BrachaOptimized → Slot → Bool
quorum_due msg s σ =
    not σ.sent_ready && leb s.ready_threshold (length σ.echos) && should_generate_ready msg.sender s

abbrev pub ready_due : BrachaMessage → BrachaOptimized → Slot → Bool
ready_due msg s σ =
    not σ.sent_ready && leb (s.f + 1) (length σ.readys) && should_generate_ready msg.sender s

abbrev pub delivery_due : BrachaOptimized → Slot → Bool
delivery_due s σ = not σ.delivered && leb s.deliver_threshold (length σ.readys)

-- What the READY that was decided on, or the delivery, does to the slot `τ`.
abbrev pub AfterReady : BrachaMessage → BrachaOptimized → Ledger → Bool → Slot → Turn → Type 0
AfterReady msg s l true τ =
    Does l msg.msg_id (record τ { sent_ready = true }) (by_dolev msg ∷ []) none
      (some (deliver_check msg))
AfterReady msg s l false τ =
    if delivery_due s τ
    then Does l msg.msg_id (record τ { delivered = true }) [] (some msg) none
    else Does l msg.msg_id τ [] none none

-- What comes behind it where the echo is amplified: the echo is counted, and it is sent only by a
-- node of the committee that is not about to send READY.
abbrev pub AfterImplied :
    BrachaMessage → BrachaOptimized → Ledger → Bool → Bool → Slot → Turn → Type 0
AfterImplied msg s l will sent τ =
    if sent
    then AfterReady msg s l will τ
    else if not will && should_generate_echo msg.sender s
    then Does l msg.msg_id (echoed s.id τ) (by_dolev (with_phase "echo" msg) ∷ []) none
        (some (deliver_check msg))
    else AfterReady msg s l will (echoed s.id τ)

-- What the amplified echo, or else the quorum of echos, does to the slot `τ`.
abbrev pub AfterEcho : BrachaMessage → BrachaOptimized → Ledger → Bool → Slot → Turn → Type 0
AfterEcho msg s l true τ =
    Does l msg.msg_id (echoed s.id τ) (by_dolev (with_phase "echo" msg) ∷ []) none
      (some (ready_check msg))
AfterEcho msg s l false τ =
    if quorum_due msg s τ
    then Does l msg.msg_id (record τ { sent_ready = true }) (by_dolev (with_phase "ready" msg) ∷ [])
        none none
    else Does l msg.msg_id τ [] none none
