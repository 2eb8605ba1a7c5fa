-- ===== src/Bracha/Payload.antt =====
-- bracha.py: votes are counted for a message id, whatever payload they carry.
use distributed_algo.Prelude.{
  ℕ, String, Bool, true, false, ◌≡◌, refl, Option, none, some, eq_string, ◌==◌, index,
  if◌then◌else◌, Result, ok, raises, ◌>>=◌, map, contains,
}
use distributed_algo.Bracha.Ledger.{add_echo, add_ready, init_state, mark_echo}
use distributed_algo.Bracha.Message.{BrachaMessage, object, message_of}
use distributed_algo.Bracha.Node.{
  Bracha, Task, deliver_check, start_echo, start_done, Turn, bracha, send, echo, deliver, ready,
  dispatch, dolev_deliver, resume,
}

abbrev pub with_payload : String → BrachaMessage → BrachaMessage
with_payload p msg = record msg { payload = p }

abbrev pub repaint_task : String → Task → Task
repaint_task p (deliver_check msg) = deliver_check (with_payload p msg)
repaint_task p (start_echo msg) = start_echo (with_payload p msg)
repaint_task p start_done = start_done

abbrev pub map_option : {A B : Type 0} → (A → B) → Option A → Option B
map_option f none = none
map_option f (some a) = some (f a)

abbrev pub map_result : {A B : Type 0} → (A → B) → Result A → Result B
map_result f (raises x) = raises x
map_result f (ok a) = ok (f a)

-- the turn with another payload in all that is sent, delivered and still to do, and the same node
abbrev pub repaint : String → Turn → Turn
repaint p t = record {
  node = t.node;
  out = map (with_payload p) t.out;
  delivers = map_option (with_payload p) t.delivers;
  rest = map_option (repaint_task p) t.rest;
}

module _ (p : String) where
  bind-repaint :
      {A : Type 0} (r : Result A) (k k' : A → Result Turn)
      → ((a : A) → k' a ≡ map_result (repaint p) (k a))
      → (r >>= k') ≡ map_result (repaint p) (r >>= k)
  bind-repaint (raises x) k k' h = refl
  bind-repaint (ok a) k k' h = h a

  if-repaint :
      (b : Bool) (x x' y y' : Result Turn)
      → x' ≡ map_result (repaint p) x
      → y' ≡ map_result (repaint p) y
      → (if b then x' else y') ≡ map_result (repaint p) (if b then x else y)
  if-repaint true x x' y y' e f = e
  if-repaint false x x' y y' e f = f

  deliver-repaint :
      (now : ℕ) (msg : BrachaMessage) (s : Bracha)
      → deliver now (with_payload p msg) s ≡ map_result (repaint p) (deliver now msg s)
  unfolding deliver
  deliver-repaint now msg s = bind-repaint (index s.ledger.delivered msg.msg_id) _ _ (λ done.
      bind-repaint (index s.ledger.readys msg.msg_id) _ _
        (λ voters. if-repaint _ _ _ _ _ refl refl))

  send-repaint :
      (msg : BrachaMessage) (s : Bracha)
      → send (with_payload p msg) s ≡ map_result (repaint p) (send msg s)
  unfolding send bracha
  send-repaint msg s = if-repaint (contains s.seen_messages msg.msg_id) _ _ _ _ refl (
      bind-repaint
        (add_echo msg.msg_id s.id (mark_echo msg.msg_id (init_state msg.msg_id s.ledger))) _ _
        (λ l. refl))

  echo-repaint :
      (src : String) (msg : BrachaMessage) (s : Bracha)
      → echo src (with_payload p msg) s ≡ map_result (repaint p) (echo src msg s)
  unfolding echo bracha
  echo-repaint src msg s =
      bind-repaint (add_echo msg.msg_id src (init_state msg.msg_id s.ledger)) _ _ (λ l.
        bind-repaint (index l.sent_ready msg.msg_id) _ _ (λ sent.
          bind-repaint (index l.echos msg.msg_id) _ _ (λ voters. if-repaint _ _ _ _ _ refl refl)))

  ready-repaint :
      (now : ℕ) (src : String) (msg : BrachaMessage) (s : Bracha)
      → ready now src (with_payload p msg) s ≡ map_result (repaint p) (ready now src msg s)
  unfolding ready bracha
  ready-repaint now src msg s =
      bind-repaint (add_ready msg.msg_id src (init_state msg.msg_id s.ledger)) _ _ (λ l.
        bind-repaint (index l.sent_ready msg.msg_id) _ _ (λ sent.
          bind-repaint (index l.readys msg.msg_id) _ _ (λ voters.
            if-repaint _ _ _ _ _ refl (deliver-repaint now msg (record s { ledger = l })))))

  dispatch-repaint :
      (now : ℕ) (src : String) (msg : BrachaMessage) (s : Bracha)
      → dispatch now src (with_payload p msg) s ≡ map_result (repaint p) (dispatch now src msg s)
  unfolding dispatch
  dispatch-repaint now src msg s = if-repaint (msg.phase == "send") _ _ _ _ (send-repaint msg _) (
      if-repaint (msg.phase == "echo") _ _ _ _ (echo-repaint src msg s)
        (if-repaint (msg.phase == "ready") _ _ _ _ (ready-repaint now src msg s) refl))

  -- A node never looks at a payload: in any state, the message with another payload is handled exactly
  -- like the message, with the same votes, the same decisions to send and to deliver and the same
  -- exceptions, and only what is sent, delivered and still to do has that payload; and so is the
  -- rest of a coroutine. So votes for different payloads count as votes for one.
  pub dolev_deliver-repaint :
      (now : ℕ) (src : String) (msg : BrachaMessage) (k : Task) (s : Bracha)
      → (dolev_deliver now src (object (with_payload p msg)) s
          ≡ map_result (repaint p) (dolev_deliver now src (object msg) s))
        × (resume now (repaint_task p k) s ≡ map_result (repaint p) (resume now k s))
  unfolding dolev_deliver message_of
  dolev_deliver-repaint now src msg k s = (dispatch-repaint now src msg _, resume-repaint k)
    where
      resume-repaint :
          (k : Task) → resume now (repaint_task p k) s ≡ map_result (repaint p) (resume now k s)
      resume-repaint (deliver_check m) = unfold resume in deliver-repaint now m s
      resume-repaint (start_echo m) =
          unfold resume bracha in
          bind-repaint (add_echo m.msg_id s.id (mark_echo m.msg_id s.ledger)) _ _ (λ l. refl)
      resume-repaint start_done = unfold resume in refl
