-- ===== src/Bracha/System/Safety.antt =====
-- What the network of bracha.py promises in every reachable state.
use distributed_algo.Prelude.{
  ℕ, ◌+◌, ◌≤◌, String, List, [], ◌∷◌, ◌++◌, Bool, true, false, ◌≡◌, refl, sym, ◌∙◌, arith,
  eq_string, has, get_or, contains, length, length-append, IsDistinct, outside, All, All-Among,
  Among, Option, none, some, Result, ok, raises, Exception, ◌>>=◌, Returns-ok, IsOk, IsOk-Returns,
  contains-append_none,
}
use distributed_algo.Bracha.Message.{Payload, message_of, echo_quorum, ready_quorum}
use distributed_algo.Bracha.Slot.{slot}
use distributed_algo.Bracha.Node.{Task, init, count_received, dolev_deliver, resume}
use distributed_algo.Bracha.Turns.{
  Backed, Pending, VoteOf, NoVote, dispatch-Sound, dolev_deliver-Sound, count_received-Sound,
  on_start-Sound, resume-Sound,
}
use distributed_algo.Bracha.System.{
  System, IsCorrect, Step, boot, receive, reject, run, start, Reach, initial, next,
}
use distributed_algo.Bracha.System.Invariant.{slot_at, Inv, took-Inv}

-- the exception of a call, if it raises one
abbrev pub exception_of : {A : Type 0} → Result A → Option Exception
exception_of (ok a) = none
exception_of (raises x) = some x

IsOk-exception_of : {A : Type 0} (r : Result A) → IsOk r → exception_of r ≡ none
IsOk-exception_of (ok a) h = refl
IsOk-exception_of (raises x) h = absurd h

bind-exception_of :
    {A B : Type 0} (r : Result A) (k : A → Result B)
    → ((a : A) → IsOk (k a))
    → exception_of (r >>= k) ≡ exception_of r
bind-exception_of (ok a) k h = IsOk-exception_of (k a) (h a)
bind-exception_of (raises x) k h = refl

All-middle :
    {A : Type 0} (P : A → Type 0) (xs : List A) (a : A) (ys : List A)
    → All P (xs ++ a ∷ ys)
    → P a × All P (xs ++ ys)
All-middle P [] a ys h = h
All-middle P (x ∷ xs) a ys h = let (p, q) = All-middle P xs a ys h.1 in (p, (h.0, q))

pub Step-Inv :
    {faulty : List String} {f q d : ℕ} {s s' : System}
    → length faulty ≤ f
    → Inv faulty f q d s
    → Step faulty s s'
    → Inv faulty f q d s'
Step-Inv {s} few inv (boot now uuid greeting i c) =
    took-Inv few inv i c NoVote _ (s.tasks i)
      (on_start-Sound now uuid greeting (s.nodes i) (inv.aligned i)) (λ j phase x v. absurd v)
      (inv.pending i)
Step-Inv {s} few inv (receive now src i payload msg c m authentic e) =
    took-Inv few inv i c (VoteOf src msg) _ (s.tasks i)
      (Returns-ok _ (dolev_deliver-Sound now src payload msg (s.nodes i) (inv.aligned i) m) e)
      (λ j phase x v x_correct.
        let b =
          All-Among (λ e. Backed (slot_at s e.0 e.1.msg_id) e.1) s.sent (src, msg) inv.backed
            (authentic (rw (← v.1) x_correct)) in
        (λ h. rw (v.1, v.2) (b.1 (sym v.0 ∙ h)), λ h. rw (v.1, v.2) (b.0 (sym v.0 ∙ h))))
      (inv.pending i)
Step-Inv {s} few inv (reject i payload c m) =
    took-Inv few inv i c NoVote _ (s.tasks i) (count_received-Sound (s.nodes i) (inv.aligned i))
      (λ j phase x v. absurd v) (inv.pending i)
Step-Inv {s} few inv (run now i before after k c split e) =
    let (p, rest) = All-middle _ before k after (rw split at (inv.pending i)) in
    took-Inv few inv i c NoVote _ (before ++ after)
      (Returns-ok _ (resume-Sound now k (s.nodes i) (inv.aligned i) p) e) (λ j phase x v. absurd v)
      rest

start-Inv :
    (faulty : List String) (sender : String → Bool) (f peers : ℕ)
    → Inv faulty f (echo_quorum (peers + 1) f) (ready_quorum f) (start sender f peers)
unfolding init slot IsDistinct contains get_or has
start-Inv faulty sender f peers = record {
  aligned = λ i. record {
    readys = λ m. refl;
    sent_echo = λ m. refl;
    sent_ready = λ m. refl;
    delivered = λ m. refl;
  };
  config = λ i. refl;
  pending = λ i. tt;
  backed = tt;
  distinct_echos = λ i m. tt;
  distinct_readys = λ i m. tt;
  echo_votes = λ i m x h c. ground arith;
  ready_votes = λ i m x h c. ground arith;
  delivery = λ i m h. ground arith;
  quorum = λ i m h. absurd (ground arith);
}

pub Reach-Inv :
    {faulty : List String} {sender : String → Bool} {f peers : ℕ} {s : System}
    → length faulty ≤ f
    → Reach faulty sender f peers s
    → Inv faulty f (echo_quorum (peers + 1) f) (ready_quorum f) s
Reach-Inv {faulty} {sender} {f} {peers} few initial = start-Inv faulty sender f peers
Reach-Inv few (next r step) = Step-Inv few (Reach-Inv few r) step

module _ {faulty : List String} {sender : String → Bool} {f peers : ℕ} {s : System}
    (few : length faulty ≤ f) (r : Reach faulty sender f peers s) where
  pub dolev_deliver-exception_of :
      (now : ℕ) (i src : String) (payload : Payload)
      → exception_of (dolev_deliver now src payload (s.nodes i)) ≡ exception_of (message_of payload)
  unfolding dolev_deliver count_received
  dolev_deliver-exception_of now i src payload =
      bind-exception_of (message_of payload) _
        (λ msg. IsOk-Returns _ _ (dispatch-Sound now src msg _ ((Reach-Inv few r).aligned i)))

  -- Nor does the rest of any coroutine of a node that the event loop runs on.
  pub resume-IsOk :
      (now : ℕ) (i : String) (k : Task) → Among k (s.tasks i) → IsOk (resume now k (s.nodes i))
  resume-IsOk now i k m =
      let inv = Reach-Inv few r in
      IsOk-Returns _ (resume now k (s.nodes i)) (
        resume-Sound now k (s.nodes i) (inv.aligned i)
          (All-Among (Pending (s.nodes i).ledger) (s.tasks i) k (inv.pending i) m))

  -- In every reachable state with at most `f` faulty nodes: if a node has sent READY for a message
  -- id, then some correct node has counted echos from `ceil((N + f + 1) / 2)` distinct sources.
  pub ready-has-quorum :
      (i m : String)
      → (slot_at s i m).sent_ready ≡ true
      → (j : String) × IsCorrect faulty j
        × IsDistinct (slot_at s j m).echos
        × (echo_quorum (peers + 1) f ≤ length (slot_at s j m).echos)
  ready-has-quorum i m h =
      let inv = Reach-Inv few r in
      let (j, c, full) = inv.quorum i m h in (j, c, inv.distinct_echos j m, full)

  -- In every reachable state with at most `f` faulty nodes: if a node has delivered a message id,
  -- then for any list of at most `f` nodes some correct node outside of the list has sent READY for
  -- it. So at least `f + 1` correct nodes have.
  pub delivered-has-readys :
      (i m : String) (others : List String)
      → (slot_at s i m).delivered ≡ true
      → length others ≤ f
      → (x : String) × IsCorrect faulty x
        × (contains others x ≡ false)
        × ((slot_at s x m).sent_ready ≡ true)
  delivered-has-readys i m others h room =
      let inv = Reach-Inv few r in
      let (x, voted, away) =
        outside (slot_at s i m).readys (faulty ++ others) (inv.distinct_readys i m)
          (omega (arith, inv.delivery i m h, length-append faulty others)) in
      let (c, o) = contains-append_none faulty others x away in
      (x, c, o, inv.ready_votes i m x voted c)

  -- In every reachable state with at most `f` faulty nodes out of more than `f`: a message id that a
  -- node has delivered was echoed by a correct node.
  pub delivered-was-echoed :
      (i m : String)
      → f ≤ peers
      → (slot_at s i m).delivered ≡ true
      → (x : String) × IsCorrect faulty x × ((slot_at s x m).sent_echo ≡ true)
  delivered-was-echoed i m big h =
      let inv = Reach-Inv few r in
      let (x, c, away, ready) = delivered-has-readys i m [] h (omega arith) in
      let (j, cj, full) = inv.quorum x m ready in
      let (y, voted, cy) =
        outside (slot_at s j m).echos faulty (inv.distinct_echos j m) (omega arith) in
      (y, cy, inv.echo_votes j m y voted cy)
