-- ===== src/Optimized/Effect.antt =====
-- What `echo` and `ready` of bracha_optimized.py do to the slot of their message id, on
-- every branch, and that none of them raises.
use distributed_algo.Prelude.{
  ℕ, ◌+◌, ◌*◌, ◌≡◌, refl, subst, IfOk, if-cases, List, String, [], ◌∷◌, Bool, true, false, not,
  ◌&&◌, ◌||◌, Option, none, some, inl, inr, eq_string, add, put, if◌then◌else◌, Bool-cases, Returns,
}
use distributed_algo.Bracha.Message.{BrachaMessage}
use distributed_algo.Bracha.Ledger.{Ledger, mark_delivered}
use distributed_algo.Bracha.Slot.{Slot, slot, IsAligned, Updates, init_state-Updates}
use distributed_algo.Bracha.Slot.Writes.{
  add_echo_after, add_ready_after, mark_echo_after, mark_ready_after, mark_delivered_after, reads,
}
use distributed_algo.Optimized.Node.{
  Config, init, BrachaOptimized, should_generate_echo, should_generate_ready, by_dolev, Task,
  ready_check, deliver_check, bracha, register_message,
}
use distributed_algo.Optimized.Handlers.{
  with_phase, generate_echo, open_message, trigger_ready, echo_or_ready, amplify_echo, echo,
  deliver, send_ready, send_implied, imply_new, imply_echo, ready,
}
use distributed_algo.Optimized.Expected.{
  Does, does, completed, echoed, echo_due, quorum_due, ready_due, delivery_due, AfterEcho,
  AfterReady, AfterImplied,
}

module _ (msg : BrachaMessage) (s : BrachaOptimized) {l : Ledger} {σ : Slot} where
  generate-Does :
      (rest : Option Task)
      → Updates l msg.msg_id σ s.ledger
      → Returns
          (generate_echo msg rest s)
          (Does l msg.msg_id (echoed s.id σ) (by_dolev (with_phase "echo" msg) ∷ []) none rest)
  unfolding generate_echo bracha
  generate-Does rest u = let (l', e, v) = add_echo_after (mark_echo_after u) s.id in rw e (does _ v)

  trigger-Does :
      Updates l msg.msg_id σ s.ledger
      → Returns (trigger_ready msg s) (
          if quorum_due msg s σ
          then Does l msg.msg_id
              (record σ { sent_ready = true })
              (by_dolev (with_phase "ready" msg) ∷ [])
              none
              none
          else Does l msg.msg_id σ [] none none)
  unfolding trigger_ready bracha
  trigger-Does u =
      let (i0, i1, i2, i3, i4) = reads u in
      rw (i3, i0)
        (elim (Bool-cases (quorum_due msg s σ)) [
          | inl h ↦ rw h (does _ (mark_ready_after u))
          | inr h ↦ rw h (does _ u)
        ])

  deliver-Does :
      (now : ℕ)
      → Updates l msg.msg_id σ s.ledger
      → Returns (deliver now msg s) (
          if delivery_due s σ
          then Does l msg.msg_id (record σ { delivered = true }) [] (some msg) none
          else Does l msg.msg_id σ [] none none)
  unfolding deliver
  deliver-Does now u =
      let (i0, i1, i2, i3, i4) = reads u in
      rw (i4, i1)
        (elim (Bool-cases (delivery_due s σ)) [
          | inl h ↦ rw h (
              completed
                (record s {
                  ledger = mark_delivered msg.msg_id s.ledger;
                  delivery_times = put s.delivery_times msg.msg_id now;
                })
                (mark_delivered_after u))
          | inr h ↦ rw h (does _ u)
        ])

  -- What the amplified echo, or the quorum, does.
  echo_or_ready-Does :
      (due : Bool)
      → Updates l msg.msg_id σ s.ledger
      → Returns (echo_or_ready due msg s) (AfterEcho msg s l due σ)
  unfolding echo_or_ready
  echo_or_ready-Does true u = generate-Does (some (ready_check msg)) u
  echo_or_ready-Does false u = trigger-Does u

  amplify-Does :
      Updates l msg.msg_id σ s.ledger
      → Returns (amplify_echo msg s) (AfterEcho msg s l (echo_due msg s σ) σ)
  unfolding amplify_echo
  amplify-Does u =
      let (i0, i1, i2, i3, i4) = reads u in rw (i2, i0) (echo_or_ready-Does (echo_due msg s σ) u)

  send_ready-Does :
      (now : ℕ) (will : Bool)
      → Updates l msg.msg_id σ s.ledger
      → Returns (send_ready now will msg s) (AfterReady msg s l will σ)
  unfolding send_ready bracha
  send_ready-Does now true u = does _ (mark_ready_after u)
  send_ready-Does now false u = deliver-Does now u

module _ (msg : BrachaMessage) (s : BrachaOptimized) {l : Ledger} where
  send_implied-Does :
      (σ : Slot) (now : ℕ) (will eligible : Bool)
      → Updates l msg.msg_id (echoed s.id σ) s.ledger
      → Returns (send_implied now will eligible msg s) (
          if not will && eligible
          then Does l msg.msg_id
              (echoed s.id σ)
              (by_dolev (with_phase "echo" msg) ∷ [])
              none
              (some (deliver_check msg))
          else AfterReady msg s l will (echoed s.id σ))
  unfolding send_implied bracha
  send_implied-Does σ now true eligible u = send_ready-Does msg s now true u
  send_implied-Does σ now false true u = does _ u
  send_implied-Does σ now false false u = send_ready-Does msg s now false u

module _ (msg : BrachaMessage) (s : BrachaOptimized) {l : Ledger} {σ : Slot} where
  imply_new-Does :
      (now : ℕ) (will sent : Bool)
      → Updates l msg.msg_id σ s.ledger
      → Returns (imply_new now will sent msg s) (AfterImplied msg s l will sent σ)
  unfolding imply_new
  imply_new-Does now will true u = send_ready-Does msg s now will u
  imply_new-Does now will false u =
      let (l', e, v) = add_echo_after (mark_echo_after u) s.id in
      rw e (
        send_implied-Does msg (record s { ledger = l' }) σ now will
          (should_generate_echo msg.sender s) v)

module _ (msg : BrachaMessage) (s : BrachaOptimized) {l : Ledger} {σ : Slot} where
  imply_echo-Does :
      (now : ℕ) (will : Bool)
      → Updates l msg.msg_id σ s.ledger
      → Returns (imply_echo now will msg s) (AfterImplied msg s l will σ.sent_echo σ)
  unfolding imply_echo
  imply_echo-Does now will u =
      let (i0, i1, i2, i3, i4) = reads u in rw i2 (imply_new-Does msg s now will σ.sent_echo u)

module _ (msg : BrachaMessage) (s : BrachaOptimized) {l : Ledger} {σ : Slot} where
  if_amplified-Does :
      (on : Bool)
      → Updates l msg.msg_id σ s.ledger
      → Returns
          (if on then amplify_echo msg s else trigger_ready msg s)
          (AfterEcho msg s l (on && echo_due msg s σ) σ)
  if_amplified-Does true u = amplify-Does msg s u
  if_amplified-Does false u = trigger-Does msg s u

  if_implied-Does :
      (now : ℕ) (will on : Bool)
      → Updates l msg.msg_id σ s.ledger
      → Returns
          (if on then imply_echo now will msg s else send_ready now will msg s)
          (AfterImplied msg s l will (not on || σ.sent_echo) σ)
  if_implied-Does now will true u = imply_echo-Does msg s now will u
  if_implied-Does now will false u = send_ready-Does msg s now will u

module _ (msg : BrachaMessage) (s : BrachaOptimized) (a : IsAligned s.ledger) where
  known : Updates s.ledger msg.msg_id (slot s.ledger msg.msg_id) (open_message msg.msg_id s).ledger
  unfolding open_message register_message
  known = init_state-Updates msg.msg_id s.ledger a

  -- On a well-formed ledger `echo` returns. It counts the vote; if echos are amplified and f + 1
  -- have come, a node of the committee that has not echoed does, and leaves the check for the
  -- quorum; else, on a quorum of echos, a node of the committee that has not sent READY does.
  pub echo-Does :
      (src : String)
      → let σ = slot s.ledger msg.msg_id in
        let τ = record σ { echos = add src σ.echos } in
        Returns
          (echo src msg s)
          (AfterEcho msg s s.ledger (s.enable_echo_amplification && echo_due msg s τ) τ)
  unfolding echo open_message register_message should_generate_echo should_generate_ready
  echo-Does src =
      let (l, e, v) = add_echo_after known src in
      rw e (
        if_amplified-Does msg (record (open_message msg.msg_id s) { ledger = l })
          s.enable_echo_amplification v)

  pub ready-AfterImplied :
      (now : ℕ) (src : String)
      → let σ = slot s.ledger msg.msg_id in
        let τ = record σ { readys = add src σ.readys } in
        Returns (ready now src msg s) (
          AfterImplied msg s s.ledger
            (ready_due msg s τ)
            (not s.enable_echo_amplification || σ.sent_echo)
            τ)
  unfolding ready open_message register_message should_generate_echo should_generate_ready
  ready-AfterImplied now src =
      let σ = slot s.ledger msg.msg_id in
      let (l, e, v) = add_ready_after known src in
      let (i0, i1, i2, i3, i4) = reads v in
      rw (e, i3, i1)
        (if_implied-Does msg (record (open_message msg.msg_id s) { ledger = l }) now
          (ready_due msg s (record σ { readys = add src σ.readys })) s.enable_echo_amplification v)

  -- On a well-formed ledger, at a node with the threshold 2 f + 1, `ready` returns. It counts the vote.
  -- A node of the committee that has not sent READY sends it on f + 1 votes; if echos are
  -- amplified, a node that has not echoed counts its own echo, and sends it if it is of the
  -- committee and does not send READY. Where nothing is sent, the message is delivered on 2 f + 1
  -- votes, once.
  pub ready-Does :
      (now : ℕ) (src : String)
      → s.deliver_threshold ≡ 2 * s.f + 1
      → let σ = slot s.ledger msg.msg_id in
        let τ = record σ { readys = add src σ.readys } in
        Returns (ready now src msg s) (
          AfterImplied msg
            (record s { deliver_threshold = 2 * s.f + 1 })
            s.ledger
            (ready_due msg s τ)
            (not s.enable_echo_amplification || σ.sent_echo)
            τ)
  ready-Does now src t =
      let σ = slot s.ledger msg.msg_id in
      let τ = record σ { readys = add src σ.readys } in
      subst
        (λ (d : ℕ). Returns (ready now src msg s) (
          AfterImplied msg (record s { deliver_threshold = d }) s.ledger (ready_due msg s τ)
            (not s.enable_echo_amplification || σ.sent_echo) τ))
        t (ready-AfterImplied now src)

-- The constructor sets this threshold.
pub init-threshold :
    (c : Config) (id : String) (peers neighbours : List String) (n : ℕ)
    → IfOk (λ s. s.deliver_threshold ≡ 2 * s.f + 1) (init c id peers neighbours n)
unfolding init
init-threshold c id peers neighbours n =
    if-cases (IfOk (λ s. s.deliver_threshold ≡ 2 * s.f + 1))
      (c.enable_single_hop_send && not c.enable_echo_amplification) (λ bad. tt) (λ good. refl)
