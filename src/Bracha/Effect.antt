-- ===== src/Bracha/Effect.antt =====
-- What the handlers of bracha.py do to the slot of their message id, against a specification of
-- one slot that has no dictionaries and no exceptions.
use distributed_algo.Prelude.{
  ℕ, ◌+◌, String, List, [], ◌∷◌, Bool, true, not, ◌&&◌, ◌||◌, ◌≡◌, refl, Option, none, some, arith,
  inl, inr, eq_string, add, contains, length, leb, ltb, count_true, put, if◌then◌else◌, Bool-cases,
  Returns,
}
use distributed_algo.Bracha.Message.{BrachaMessage}
use distributed_algo.Bracha.Ledger.{Ledger, init_state, mark_delivered}
use distributed_algo.Bracha.Slot.{Slot, slot, IsAligned, Updates, Updates-to, init_state-Updates}
use distributed_algo.Bracha.Slot.Writes.{
  add_echo_after, add_ready_after, mark_echo_after, mark_ready_after, mark_delivered_after, reads,
}
use distributed_algo.Bracha.Node.{
  Bracha, Task, deliver_check, Turn, with_phase, bracha, send, echo, check_completion, deliver,
  ready,
}

-- The node's own echo counts as soon as it is sent.
abbrev pub echoed : String → Slot → Slot
echoed me σ = record σ { sent_echo = true; echos = add me σ.echos }

-- An echo is counted once for each source; a full quorum makes the node ready.
abbrev pub after_echo : ℕ → String → Slot → Slot
after_echo quorum src σ =
    let voters = add src σ.echos in
    record σ { echos = voters; sent_ready = σ.sent_ready || leb quorum (length voters) }

abbrev pub after_ready : ℕ → String → Slot → Slot
after_ready f src σ =
    let voters = add src σ.readys in
    record σ { readys = voters; sent_ready = σ.sent_ready || leb (f + 1) (length voters) }

abbrev pub after_deliver : ℕ → Slot → Slot
after_deliver quorum σ = record σ { delivered = σ.delivered || leb quorum (length σ.readys) }

-- The constants of a node that its rules read.
pub record Rules : Type 0 where
  pub id : String
  pub f : ℕ
  pub echo_quorum : ℕ
  pub ready_quorum : ℕ

abbrev pub rules : Bracha → Rules
rules s = record {
  id = s.id;
  f = s.f;
  echo_quorum = s.ready_threshold;
  ready_quorum = s.deliver_threshold;
}

-- Against the ledger `l` and the constants `c`, a turn at message id `m` leaves the slot `spec`
-- there and every other slot alone, hands `sends` to Dolev, delivers `told`, and has `tail` to do.
pub record Acts (l : Ledger) (c : Rules) (m : String) (spec : Slot) (sends : List BrachaMessage)
    (told : Option BrachaMessage) (tail : Option Task) (t : Turn) : Type 0 where
  pub ledger : Updates l m spec t.node.ledger
  pub config : rules t.node ≡ c
  pub output : t.out ≡ sends
  pub delivery : t.delivers ≡ told
  pub rest : t.rest ≡ tail

-- A turn that leaves the constants alone.
abbrev pub acts :
    {l : Ledger} {c : Rules} {m : String} {spec : Slot} (t : Turn)
    → Updates l m spec t.node.ledger
    → rules t.node ≡ c
    → Acts l c m spec t.out t.delivers t.rest t
acts t u e = record { ledger = u; config = e; output = refl; delivery = refl; rest = refl }

completed :
    {l : Ledger} {c : Rules} {m : String} {spec : Slot} {told : Option BrachaMessage} (s' : Bracha)
    → Updates l m spec s'.ledger
    → rules s' ≡ c
    → Acts l c m spec [] told none
        (record { node = check_completion s'; out = []; delivers = told; rest = none })
unfolding check_completion
completed s' u e =
    elim (Bool-cases (
      ltb 0 (length s'.expected_senders)
      && leb (length s'.expected_senders) (count_true s'.ledger.delivered))) [
        | inl h ↦ rw h (acts _ u e)
        | inr h ↦ rw h (acts _ u e)
      ]

module _ (msg : BrachaMessage) (s : Bracha) where
  -- The second half of `ready`, where the ledger knows the message id.
  pub deliver-Acts :
      {l : Ledger} {σ : Slot} {c : Rules} (now : ℕ)
      → rules s ≡ c
      → Updates l msg.msg_id σ s.ledger
      → Returns (deliver now msg s) (
          Acts l c msg.msg_id
            (after_deliver s.deliver_threshold σ)
            []
            (if not σ.delivered && leb s.deliver_threshold (length σ.readys)
              then some msg
              else none)
            none)
  unfolding deliver
  deliver-Acts {σ} now e u =
      let (i0, i1, i2, i3, i4) = reads u in
      rw (i4, i1)
        (elim (Bool-cases (not σ.delivered && leb s.deliver_threshold (length σ.readys))) [
          | inl h ↦ rw h (
              completed
                (record s {
                  ledger = mark_delivered msg.msg_id s.ledger;
                  delivery_times = put s.delivery_times msg.msg_id now;
                })
                (Updates-to (ground arith) (mark_delivered_after u)) (ground arith))
          | inr h ↦ rw h (acts _ (Updates-to (ground arith) u) (ground arith))
        ])

module _ (msg : BrachaMessage) (s : Bracha) (a : IsAligned s.ledger) where
  abbrev m : String
  m = msg.msg_id

  abbrev σ : Slot
  σ = slot s.ledger m

  known : Updates s.ledger m σ (init_state m s.ledger)
  known = init_state-Updates m s.ledger a

  pub send-Acts : Returns (send msg s) (
      if contains s.seen_messages m
      then Acts s.ledger (rules s) m σ [] none none
      else Acts s.ledger (rules s) m (echoed s.id σ) (with_phase "echo" msg ∷ []) none none)
  unfolding send bracha
  send-Acts =
      let (l, e, v) = add_echo_after (mark_echo_after known) s.id in
      elim (Bool-cases (contains s.seen_messages m)) [
        | inl h ↦ rw h (acts _ (known) (ground arith))
        | inr h ↦ rw (h, e) (acts _ (v) (ground arith))
      ]

  pub echo-Acts :
      (src : String)
      → Returns (echo src msg s) (
          Acts s.ledger
            (rules s)
            m
            (after_echo s.ready_threshold src σ)
            (if not σ.sent_ready && leb s.ready_threshold (length (add src σ.echos))
              then with_phase "ready" msg ∷ []
              else [])
            none
            none)
  unfolding echo bracha
  echo-Acts src =
      let (l, e, v) = add_echo_after known src in
      let (i0, i1, i2, i3, i4) = reads v in
      let full = leb s.ready_threshold (length (add src σ.echos)) in
      rw (e, i3, i0)
        (elim (Bool-cases (not σ.sent_ready && full)) [
          | inl h ↦ rw h (acts _ (Updates-to (ground arith) (mark_ready_after v)) (ground arith))
          | inr h ↦ rw h (acts _ (Updates-to (ground arith) v) (ground arith))
        ])

  abbrev pub amplifies : String → Bool
  amplifies src = not σ.sent_ready && leb (s.f + 1) (length (add src σ.readys))

  pub ready-Acts :
      (now : ℕ) (src : String)
      → Returns (ready now src msg s) (
          if amplifies src
          then Acts s.ledger
              (rules s)
              m
              (after_ready s.f src σ)
              (msg ∷ [])
              none
              (some (deliver_check msg))
          else Acts s.ledger
              (rules s)
              m
              (after_deliver s.deliver_threshold (after_ready s.f src σ))
              []
              (if not σ.delivered && leb s.deliver_threshold (length (add src σ.readys))
                then some msg
                else none)
              none)
  unfolding ready bracha
  ready-Acts now src =
      let (l, e, v) = add_ready_after known src in
      let (i0, i1, i2, i3, i4) = reads v in
      rw (e, i3, i1)
        (elim (Bool-cases (amplifies src)) [
          | inl h ↦ rw h (acts _ (Updates-to (ground arith) (mark_ready_after v)) (ground arith))
          | inr h ↦ rw h (
              deliver-Acts msg (record s { ledger = l }) now (ground arith)
                (Updates-to (ground arith) v))
        ])
