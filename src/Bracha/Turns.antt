-- ===== src/Bracha/Turns.antt =====
-- Every turn of a node of bracha.py returns on a well-formed state, and its effect on every slot
-- is progress with a reason.
use distributed_algo.Prelude.{
  ℕ, String, List, [], ◌∷◌, true, ◌≡◌, ◌≢◌, refl, sym, ◌∙◌, Option, none, some, arith, inl, inr,
  eq_string, ◌==◌, eq_iff, contains, Bool-cases, All, All-if, Returns, ok, Returns-map,
}
use distributed_algo.Bracha.Message.{BrachaMessage, Payload, message_of}
use distributed_algo.Bracha.Ledger.{Ledger}
use distributed_algo.Bracha.Slot.{Slot, slot, IsAligned, Knows, Updates, init_state-Updates}
use distributed_algo.Bracha.Slot.Writes.{add_echo_after, mark_echo_after}
use distributed_algo.Bracha.Node.{
  Bracha, Task, deliver_check, start_echo, start_done, Turn, with_phase, bracha, send, echo, quiet,
  deliver, ready, dispatch, count_received, dolev_deliver, on_start, resume,
}
use distributed_algo.Bracha.Effect.{
  Rules, rules, Acts, acts, echoed, after_ready, send-Acts, echo-Acts, ready-Acts, deliver-Acts,
  amplifies,
}
use distributed_algo.Bracha.Progress.{
  Progress, Progress-refl, Progress-trans, Progress-echoed, Progress-echo, Progress-ready,
  Progress-deliver,
}

echo≢ready : ◌≢◌ {A = String} "echo" "ready"
echo≢ready e = absurd (ground (arith, eq_iff "echo" "ready"))

send≢echo : ◌≢◌ {A = String} "send" "echo"
send≢echo e = absurd (ground (arith, eq_iff "send" "echo"))

send≢ready : ◌≢◌ {A = String} "send" "ready"
send≢ready e = absurd (ground (arith, eq_iff "send" "ready"))

-- A message that a node hands to Dolev is backed by a flag that stays raised.
abbrev pub Backed : Slot → BrachaMessage → Type 0
Backed σ o = (o.phase ≡ "ready" → σ.sent_ready ≡ true) × (o.phase ≡ "echo" → σ.sent_echo ≡ true)

-- What the rest of a coroutine relies on.
abbrev pub Pending : Ledger → Task → Type 0
Pending l (deliver_check msg) = Knows l msg.msg_id
Pending l (start_echo msg) = Knows l msg.msg_id
Pending l start_done = Unit

abbrev pub PendingRest : Ledger → Option Task → Type 0
PendingRest l none = Unit
PendingRest l (some k) = Pending l k

pub record Sound (l : Ledger) (c : Rules) (Voted : String → String → String → Type 0) (t : Turn)
    : Type 0 where
  pub aligned : IsAligned t.node.ledger
  pub config : rules t.node ≡ c
  pub progress : (j : String) → Progress c (Voted j) (slot l j) (slot t.node.ledger j)
  pub keeps : (j : String) → Knows l j → Knows t.node.ledger j
  pub backed : All (λ o. Backed (slot t.node.ledger o.msg_id) o) t.out
  pub pending : PendingRest t.node.ledger t.rest

-- A message of the slot `spec` at `m`, backed by it.
abbrev BackedAt : String → Slot → BrachaMessage → Type 0
BackedAt m spec o = (o.msg_id ≡ m) × Backed spec o

BackedAt-slot :
    (l : Ledger) (m : String) {spec : Slot} (outs : List BrachaMessage)
    → slot l m ≡ spec
    → All (BackedAt m spec) outs
    → All (λ o. Backed (slot l o.msg_id) o) outs
BackedAt-slot l m [] e h = tt
BackedAt-slot l m (o ∷ outs) e h = (rw (h.0.0, e) h.0.1, BackedAt-slot l m outs e h.1)

module _ {l : Ledger} {c : Rules} (Voted : String → String → String → Type 0) where
  Acts-Sound :
      {m : String} {spec : Slot} {sends : List BrachaMessage} {told : Option BrachaMessage}
      {tail : Option Task} (t : Turn)
      → Progress c (Voted m) (slot l m) spec
      → All (BackedAt m spec) sends
      → ((l' : Ledger) → Knows l' m → PendingRest l' tail)
      → Acts l c m spec sends told tail t
      → Sound l c Voted t
  Acts-Sound {m} t p b k act = record {
    aligned = act.ledger.aligned;
    config = act.config;
    progress = λ j. elim (Bool-cases (m == j)) [
      | inl e ↦ rw (← (eq_iff m j).0 e, act.ledger.here) p
      | inr e ↦ rw (act.ledger.others j e) (Progress-refl _)
    ];
    keeps = act.ledger.keeps;
    backed = rw act.output (BackedAt-slot t.node.ledger m _ act.ledger.here b);
    pending = rw act.rest (k t.node.ledger act.ledger.knows);
  }

-- The votes that a delivered message carries.
abbrev pub VoteOf : String → BrachaMessage → String → String → String → Type 0
VoteOf src msg j phase x = (phase ≡ msg.phase) × (x ≡ src) × (j ≡ msg.msg_id)

abbrev pub NoVote : String → String → String → Type 0
NoVote j phase x = ⊥

module _ (msg : BrachaMessage) (s : Bracha) (a : IsAligned s.ledger) where
  abbrev m : String
  m = msg.msg_id

  send-Sound :
      (Voted : String → String → String → Type 0)
      → Returns (send msg s) (Sound s.ledger (rules s) Voted)
  send-Sound Voted = elim (Bool-cases (contains s.seen_messages m)) [
    | inl h ↦
        Returns-map (send msg s) (λ t. Acts-Sound Voted t (Progress-refl _) tt (λ l k. tt))
          (rw h at (send-Acts msg s a))
    | inr h ↦
        Returns-map (send msg s)
          (λ t. Acts-Sound Voted t (Progress-echoed _) echo_backed (λ l k. tt))
          (rw h at (send-Acts msg s a))
  ]
    where
      echo_backed : All (BackedAt m (echoed s.id (slot s.ledger m))) (with_phase "echo" msg ∷ [])
      echo_backed = ((refl, (λ h. absurd (echo≢ready h), λ h. refl)), tt)

  echo-Sound :
      (src : String)
      → msg.phase ≡ "echo"
      → Returns (echo src msg s) (Sound s.ledger (rules s) (VoteOf src msg))
  echo-Sound src e =
      Returns-map (echo src msg s)
        (λ t.
          Acts-Sound (VoteOf src msg) t (Progress-echo src _ (sym e, refl, refl))
            (All-if _ _ _ λ h. (refl, (λ r. ground arith, λ r. absurd (echo≢ready (sym r)))))
            (λ l k. tt))
        (echo-Acts msg s a src)

  ready-Sound :
      (now : ℕ) (src : String)
      → msg.phase ≡ "ready"
      → Returns (ready now src msg s) (Sound s.ledger (rules s) (VoteOf src msg))
  ready-Sound now src e = elim (Bool-cases (amplifies msg s a src)) [
    | inl h ↦
        Returns-map (ready now src msg s)
          (λ t.
            Acts-Sound (VoteOf src msg) t voted
              ((refl, (λ r. ground arith, λ r. absurd (echo≢ready (sym r ∙ e)))), tt) (λ l k. k))
          (rw h at (ready-Acts msg s a now src))
    | inr h ↦
        Returns-map (ready now src msg s)
          (λ t.
            Acts-Sound (VoteOf src msg) t (Progress-trans voted (Progress-deliver _)) tt
              (λ l k. tt))
          (rw h at (ready-Acts msg s a now src))
  ]
    where
      voted :
          Progress
            (rules s)
            (VoteOf src msg m)
            (slot s.ledger m)
            (after_ready s.f src (slot s.ledger m))
      voted = Progress-ready src _ (sym e, refl, refl)

-- The handler of a message returns, and every change of a slot has a reason.
pub dispatch-Sound :
    (now : ℕ) (src : String) (msg : BrachaMessage) (s : Bracha)
    → IsAligned s.ledger
    → Returns (dispatch now src msg s) (Sound s.ledger (rules s) (VoteOf src msg))
unfolding dispatch
dispatch-Sound now src msg s a = elim (Bool-cases (msg.phase == "send")) [
  | inl e ↦ rw e (send-Sound msg _ a (VoteOf src msg))
  | inr e ↦ rw e (elim (Bool-cases (msg.phase == "echo")) [
    | inl e ↦ rw e (echo-Sound msg _ a src ((eq_iff _ _).0 e))
    | inr e ↦ rw e (elim (Bool-cases (msg.phase == "ready")) [
      | inl e ↦ rw e (ready-Sound msg _ a now src ((eq_iff _ _).0 e))
      | inr e ↦ rw e (record {
        aligned = a;
        config = refl;
        progress = λ j. Progress-refl _;
        keeps = λ j h. h;
        backed = tt;
        pending = tt;
      })
    ])
  ])
]

-- A payload that is a message is handled as that message.
pub dolev_deliver-Sound :
    (now : ℕ) (src : String) (payload : Payload) (msg : BrachaMessage) (s : Bracha)
    → IsAligned s.ledger
    → message_of payload ≡ ok msg
    → Returns (dolev_deliver now src payload s) (Sound s.ledger (rules s) (VoteOf src msg))
unfolding dolev_deliver count_received
dolev_deliver-Sound now src payload msg s a e =
    rw e (dispatch-Sound now src msg (count_received s) a)

pub count_received-Sound :
    (s : Bracha) → IsAligned s.ledger → Sound s.ledger (rules s) NoVote (quiet (count_received s))
unfolding count_received
count_received-Sound s a = record {
  aligned = a;
  config = refl;
  progress = λ j. Progress-refl _;
  keeps = λ j h. h;
  backed = tt;
  pending = tt;
}

-- The start of a node, and the rest of a coroutine, return too.
pub on_start-Sound :
    (now : ℕ) (uuid greeting : String) (s : Bracha)
    → IsAligned s.ledger
    → Sound s.ledger (rules s) NoVote (on_start now uuid greeting s)
unfolding on_start bracha
on_start-Sound now uuid greeting s a = elim (Bool-cases s.is_sender) [
  | inl e ↦ rw e (
      Acts-Sound NoVote _ (Progress-refl _)
        ((refl, (λ r. absurd (send≢ready r), λ r. absurd (send≢echo r))), tt) (λ l k. k)
        (acts _ (init_state-Updates uuid s.ledger a) refl))
  | inr e ↦ rw e (record {
    aligned = a;
    config = refl;
    progress = λ j. Progress-refl _;
    keeps = λ j h. h;
    backed = tt;
    pending = tt;
  })
]

unchanged : {l : Ledger} {m : String} → IsAligned l → Knows l m → Updates l m (slot l m) l
unchanged a k = record {
  aligned = a;
  knows = k;
  here = refl;
  others = λ j h. refl;
  keeps = λ j h. h;
}

pub resume-Sound :
    (now : ℕ) (k : Task) (s : Bracha)
    → IsAligned s.ledger
    → Pending s.ledger k
    → Returns (resume now k s) (Sound s.ledger (rules s) NoVote)
unfolding resume bracha
resume-Sound now (deliver_check msg) s a k =
    Returns-map (deliver now msg s) (λ t. Acts-Sound NoVote t (Progress-deliver _) tt (λ l k. tt))
      (deliver-Acts msg s now refl (unchanged a k))
resume-Sound now (start_echo msg) s a k =
    let (l, e, v) = add_echo_after (mark_echo_after (unchanged a k)) s.id in
    rw e (
      Acts-Sound NoVote _ (Progress-echoed _) ((refl, (λ r. absurd (echo≢ready r), λ r. refl)), tt)
        (λ l k. tt) (acts _ v refl))
resume-Sound now start_done s a k = record {
  aligned = a;
  config = refl;
  progress = λ j. Progress-refl _;
  keeps = λ j h. h;
  backed = tt;
  pending = tt;
}
