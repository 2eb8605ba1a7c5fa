-- ===== src/Framework/Node/Barrier.antt =====
-- node.py: the two barriers. A node runs when all its peers run, and has terminated when all its
-- peers have.
use distributed_algo.Prelude.{
  ℕ, String, List, [], ◌∷◌, Bool, true, false, ◌&&◌, ◌||◌, ◌≡◌, refl, ◌⊎◌, inl, inr, Option, none,
  some, Eq, arith, all, map, Among, Result, ok, raises, if-cases,
}
use distributed_algo.Framework.Messages.{
  Value, MessageType, Bytes, Msgpack, pubkey, started, finished, algorithm, Envelope, deserialize,
  truthy,
}
use distributed_algo.Framework.Community.{
  Community, NodeStatus, not_started, key_sharing, starting, running, terminated, stopping, values,
  statuses, get_status, id_of, has_all_keys,
}
use distributed_algo.Framework.Node.{
  Node, Monitor, count_message, handle_from, handle_sender, Algorithm, looping, sharing_keys,
  awaiting_started, in_on_start, awaiting_change, awaiting_finished, exited, is_starting,
  is_stopping, is_running, is_terminated, all_running, all_terminated, update_status, mark_peer,
  hear_started, hear_finished, hear_pubkey, hear_algorithm, dispatch, handle, value_length, is_null,
}
use distributed_algo.Framework.Lifecycle.{
  settle, monitor_after, pass, monitor_at, monitor_branch, monitor_round, begin, shut_down,
  algorithm_turn,
}

pub data Event (A : Type 0) : Type 0 where
  message : A → Bytes → Event A
  round : ℕ → Event A
  began : Event A
  turned : Event A
  shut : Event A

and_left : (a b : Bool) → a && b ≡ true → a ≡ true
and_left a b h = ground arith

and_right : (a b : Bool) → a && b ≡ true → b ≡ true
and_right a b h = ground arith

all-map :
    {V : Type 0} (t : V → Bool) (f : String → V) (ps : List String) (p : String)
    → all (λ (e : String × V). t e.1) (map (λ q. (q, f q)) ps) ≡ true
    → Among p ps
    → t (f p) ≡ true
all-map t f [] p h m = absurd m
all-map t f (q ∷ ps) p h (inl e) = rw (← e) (and_left _ _ h)
all-map t f (q ∷ ps) p h (inr m) = all-map t f ps p (and_right _ _ h) m

all-statuses :
    {A M : Type 0} (t : NodeStatus → Bool) (c : Community A M) (p : String)
    → all (λ e. t e.1) (statuses c) ≡ true
    → Among p (values c.peers)
    → t (get_status p c) ≡ true
unfolding statuses
all-statuses t c p h m = all-map t (λ q. get_status q c) (values c.peers) p h m

module _ {A M S : Type 0} ⦃eq : Eq A⦄ (msgpack : Msgpack) (alg : Algorithm S)
    (chars : String → ℕ) where
  unfoldable pub step : Event A → Node A M S → Node A M S
  step (message addr msg) n = (handle msgpack alg chars addr msg n).1
  step (round now) n = (monitor_round msgpack alg now n).1
  step began n = begin n
  step turned n = algorithm_turn alg n
  step shut n = shut_down n

  -- The status is the old one, or a barrier has been passed, or it is neither of the two.
  record Passed (n n' : Node A M S) : Type 0 where
    runs : is_running n'.status ≡ true → (is_running n.status ≡ true) ⊎ (all_running n' ≡ true)
    ends :
        is_terminated n'.status ≡ true
        → (is_terminated n.status ≡ true) ⊎ (all_terminated n' ≡ true)

  Passed-same : (n n' : Node A M S) → n'.status ≡ n.status → Passed n n'
  Passed-same n n' e = record { runs = λ h. inl (rw (← e) h); ends = λ h. inl (rw (← e) h) }

  started-Passed : (p : String) (n : Node A M S) → Passed n (hear_started p n)
  unfolding hear_started mark_peer update_status all_running all_terminated
  started-Passed p n =
      if-cases (Passed n) (is_starting n.status && all_running (mark_peer p running n))
        (λ h. record { runs = λ _. inr (and_right _ _ h); ends = λ e. ground arith })
        (λ h. Passed-same n (mark_peer p running n) refl)

  finished-Passed : (p : String) (n : Node A M S) → Passed n (hear_finished p n)
  unfolding hear_finished mark_peer update_status all_running all_terminated
  finished-Passed p n =
      if-cases (Passed n) (is_stopping n.status && all_terminated (mark_peer p terminated n))
        (λ h. record { runs = λ e. ground arith; ends = λ _. inr (and_right _ _ h) })
        (λ h. Passed-same n (mark_peer p terminated n) refl)

  pubkey-Passed : (p : String) (k : Value) (n : Node A M S) → Passed n (hear_pubkey p k n)
  unfolding hear_pubkey
  pubkey-Passed p k n =
      if-cases (Passed n) (truthy k) (λ h. Passed-same n _ refl) (λ h. Passed-same n n refl)

  logged-Passed :
      (p : String) (t v : Value) (n : Node A M S) (size : Result ℕ)
      → Passed n (count_message alg p t v n size).1
  unfolding count_message
  logged-Passed p t v n (raises x) = Passed-same n _ refl
  logged-Passed p t v n (ok size) = Passed-same n _ refl

  algorithm-Passed :
      (p : String) (t v : Value) (n : Node A M S) → Passed n (hear_algorithm alg chars p t v n).1
  unfolding hear_algorithm
  algorithm-Passed p t v n =
      if-cases (λ (r : Result (Option Bytes) × Node A M S). Passed n r.1) (is_null t || is_null v)
        (λ h. Passed-same n n refl) (λ h. logged-Passed p t v n (value_length chars v))

  dispatch-Passed :
      (p : String) (k : MessageType) (e : Envelope) (n : Node A M S)
      → Passed n (dispatch alg chars p k e n).1
  unfolding dispatch
  dispatch-Passed p pubkey e n = pubkey-Passed p e.payload n
  dispatch-Passed p started e n = started-Passed p n
  dispatch-Passed p finished e n = finished-Passed p n
  dispatch-Passed p algorithm e n = algorithm-Passed p e.type_id e.payload n

  from-Passed :
      (p : String) (r : Result Envelope) (n : Node A M S) → Passed n (handle_from alg chars p r n).1
  unfolding handle_from
  from-Passed p (raises x) n = Passed-same n n refl
  from-Passed p (ok e) n = dispatch-Passed p e.msg_type e n

  sender-Passed :
      (p : Option String) (msg : Bytes) (n : Node A M S)
      → Passed n (handle_sender msgpack alg chars p msg n).1
  unfolding handle_sender
  sender-Passed none msg n = Passed-same n n refl
  sender-Passed (some p) msg n = from-Passed p (deserialize msgpack msg) n

  settle_lem : (b : Bool) (n : Node A M S) → (settle b n).status ≡ n.status
  unfolding settle
  settle_lem true n = refl
  settle_lem false n = refl

  monitor_after_lem :
      (m : Monitor) (state : S) (n : Node A M S) → (monitor_after alg m state n).status ≡ n.status
  unfolding monitor_after
  monitor_after_lem in_on_start state n = settle_lem (alg.on_start_returned state) n
  monitor_after_lem looping state n = refl
  monitor_after_lem sharing_keys state n = refl
  monitor_after_lem awaiting_started state n = refl
  monitor_after_lem awaiting_change state n = refl
  monitor_after_lem awaiting_finished state n = refl
  monitor_after_lem exited state n = refl

  branch-Passed :
      (now : ℕ) (st : NodeStatus) (n : Node A M S)
      → Passed n (monitor_branch msgpack alg now st n).1
  unfolding monitor_branch
  branch-Passed now not_started n = Passed-same n _ refl
  branch-Passed now key_sharing n = Passed-same n _ refl
  branch-Passed now starting n = Passed-same n _ refl
  branch-Passed now running n =
      let state = alg.on_start n.state in
      Passed-same n _ (
        settle_lem (alg.on_start_returned state) (record n {
          start_time = elim n.start_time [ none ↦ some now | some t ↦ some t ];
          state = state;
        }))
  branch-Passed now stopping n = Passed-same n _ refl
  branch-Passed now terminated n = Passed-same n _ refl

  pass-Passed :
      (b : Bool) (st : NodeStatus) (n : Node A M S)
      → (b ≡ true → is_running st ≡ true → all_running n ≡ true)
      → (b ≡ true → is_terminated st ≡ true → all_terminated n ≡ true)
      → Passed n (pass b st n).1
  unfolding pass update_status all_running all_terminated
  pass-Passed b st n p q =
      if-cases (λ (r : Option Bytes × Node A M S). Passed n r.1) b
        (λ h. record { runs = λ e. inr (p h e); ends = λ e. inr (q h e) })
        (λ h. Passed-same n n refl)

  round-Passed :
      (now : ℕ) (k : Monitor) (n : Node A M S) → Passed n (monitor_at msgpack alg now k n).1
  unfolding monitor_at
  round-Passed now looping n = branch-Passed now n.status n
  round-Passed now sharing_keys n =
      pass-Passed (has_all_keys n.community) starting n (λ h e. ground arith) (λ h e. ground arith)
  round-Passed now awaiting_started n =
      pass-Passed (all_running n) running n (λ h e. h) (λ h e. ground arith)
  round-Passed now in_on_start n = Passed-same n n refl
  round-Passed now awaiting_change n =
      if-cases (λ (r : Option Bytes × Node A M S). Passed n r.1) n.status_changed
        (λ h. Passed-same n _ refl) (λ h. Passed-same n n refl)
  round-Passed now awaiting_finished n =
      pass-Passed (all_terminated n) terminated n (λ h e. ground arith) (λ h e. h)
  round-Passed now exited n = Passed-same n n refl

  step-Passed : (e : Event A) (n : Node A M S) → Passed n (step e n)
  unfolding step handle monitor_round begin shut_down algorithm_turn update_status
  step-Passed (message addr msg) n = sender-Passed (id_of addr n.community) msg n
  step-Passed (round now) n = round-Passed now n.monitor n
  step-Passed began n = record { runs = λ e. ground arith; ends = λ e. ground arith }
  step-Passed turned n =
      let state = alg.turn n.state in
      Passed-same n _ (monitor_after_lem n.monitor state (record n { state = state }))
  step-Passed shut n = record { runs = λ e. ground arith; ends = λ e. ground arith }

  -- A node that did not run and runs after a step holds every peer for running.
  pub runs-together :
      (e : Event A) (n : Node A M S) (p : String)
      → is_running n.status ≡ false
      → is_running (step e n).status ≡ true
      → Among p (values (step e n).community.peers)
      → is_running (get_status p (step e n).community) ≡ true
  unfolding all_running
  runs-together e n p old new member = elim ((step-Passed e n).runs new) [
    | inl h ↦ ground arith
    | inr h ↦ all-statuses is_running (step e n).community p h member
  ]

  -- A node that had not terminated and has after a step holds every peer for terminated.
  pub ends-together :
      (e : Event A) (n : Node A M S) (p : String)
      → is_terminated n.status ≡ false
      → is_terminated (step e n).status ≡ true
      → Among p (values (step e n).community.peers)
      → is_terminated (get_status p (step e n).community) ≡ true
  unfolding all_terminated
  ends-together e n p old new member = elim ((step-Passed e n).ends new) [
    | inl h ↦ ground arith
    | inr h ↦ all-statuses is_terminated (step e n).community p h member
  ]
