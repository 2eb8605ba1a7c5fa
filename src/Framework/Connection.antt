-- ===== src/Framework/Connection.antt =====
-- distbench-py/distbench/connection.py: a connection to one peer that is opened when it is needed,
-- with retries. The transport is a parameter: the outcome of its k-th `connect`, and of each `send`.
-- The lock makes `_ensure_connected` one step, with the delays it sleeps for as its result.
use distributed_algo.Prelude.{
  ℕ, zero, suc, ◌+◌, ◌*◌, ◌^◌, ◌≤◌, List, [], ◌∷◌, ◌++◌, ◌≡◌, refl, sym, subst, arith, Option, none,
  some, ltb, if◌then◌else◌, Result, ok, raises, connection_error, IsRaise,
}

pub record ConnectionManager (C : Type 0) : Type 0 where
  pub connection : Option C
  pub max_retries : ℕ
  pub retry_delay : ℕ
  -- how often `transport.connect` has been called
  pub connects : ℕ

unfoldable pub init : {C : Type 0} → ℕ → ℕ → ConnectionManager C
init max_retries retry_delay = record {
  connection = none;
  max_retries = max_retries;
  retry_delay = retry_delay;
  connects = 0;
}

-- an attempt, with the delays, the result and the state of the attempts behind it
unfoldable pub attempted :
    {C : Type 0}
    → Result C
    → List ℕ
    → ConnectionManager C
    → List ℕ × Result C × ConnectionManager C
    → List ℕ × Result C × ConnectionManager C
attempted (ok c) delay called later = ([], ok c, record called { connection = some c })
attempted (raises x) delay called (slept, r, m) = (delay ++ slept, r, m)

-- the error of a connection drops it
unfoldable pub answered :
    {C R : Type 0} → Result R → ConnectionManager C → Result R × ConnectionManager C
answered (ok answer) m = (ok answer, m)
answered (raises x) m = (raises x, record m { connection = none })

unfoldable pub ask :
    {C R : Type 0}
    → (C → Result R)
    → Result C × ConnectionManager C
    → Result R × ConnectionManager C
unfolding answered
ask call (raises x, m) = (raises x, m)
ask call (ok c, m) = answered (call c) m

module _ {C : Type 0} (connect : ℕ → Result C) where
  -- The loop over the attempts, of which `left` are to come: the delays slept for, in order, and
  -- the connection. There is no delay behind the last attempt.
  unfoldable pub attempts :
      (left attempt : ℕ) → ConnectionManager C → List ℕ × Result C × ConnectionManager C
  unfolding attempted
  attempts zero attempt m = ([], raises connection_error, m)
  attempts (suc left) attempt m =
      let called = record m { connects = m.connects + 1 } in
      attempted (connect m.connects)
        (if ltb (attempt + 1) m.max_retries then m.retry_delay * 2 ^ attempt ∷ [] else []) called
        (attempts left (attempt + 1) called)

  unfoldable pub ensure_from :
      Option C → ConnectionManager C → List ℕ × Result C × ConnectionManager C
  unfolding attempts
  ensure_from (some c) m = ([], ok c, m)
  ensure_from none m = attempts m.max_retries 0 m

  unfoldable pub ensure_connected : ConnectionManager C → List ℕ × Result C × ConnectionManager C
  unfolding ensure_from
  ensure_connected m = ensure_from m.connection m

  -- `send`, and `cast`, whose call answers nothing
  unfoldable pub send :
      {R : Type 0} → (C → Result R) → ConnectionManager C → Result R × ConnectionManager C
  unfolding ensure_connected ask
  send call m = let (slept, r, m') = ensure_connected m in ask call (r, m')

  -- The `j` calls of `connect` from the k-th on raise.
  abbrev pub Fail : ℕ → ℕ → Type 0
  Fail k zero = Unit
  Fail k (suc j) = IsRaise (connect k) × Fail (k + 1) j

  -- The first call that succeeds gives the connection, which is kept; or all of them have failed.
  pub record Connected (k left : ℕ) (c : C) (m : ConnectionManager C) : Type 0 where
    pub failed : ℕ
    pub in_time : suc failed ≤ left
    pub fails : Fail k failed
    pub succeeds : connect (k + failed) ≡ ok c
    pub kept : m.connection ≡ some c
    pub calls : m.connects ≡ k + suc failed

  abbrev pub Outcome : ℕ → ℕ → Result C → ConnectionManager C → Type 0
  Outcome k left (ok c) m = Connected k left c m
  Outcome k left (raises x) m =
      (x ≡ connection_error) × Fail k left × (m.connection ≡ none) × (m.connects ≡ k + left)

  next : (k j : ℕ) → k + 1 + j ≡ k + suc j
  next k j = omega arith

  later-Outcome :
      (k left : ℕ) (r : Result C) (m : ConnectionManager C)
      → IsRaise (connect k)
      → Outcome (k + 1) left r m
      → Outcome k (suc left) r m
  later-Outcome k left (ok c) m raised o = record {
    failed = suc o.failed;
    in_time = omega (arith, o.in_time);
    fails = (raised, o.fails);
    succeeds = subst (λ j. connect j ≡ ok c) (next k o.failed) o.succeeds;
    kept = o.kept;
    calls = omega (arith, o.calls);
  }
  later-Outcome k left (raises x) m raised o =
      let (e, fails, closed, calls) = o in (e, (raised, fails), closed, omega (arith, calls))

  attempted-Outcome :
      (k left : ℕ) (r : Result C) (delay slept : List ℕ) (called m : ConnectionManager C)
      (later : Result C)
      → connect k ≡ r
      → called.connects ≡ k + 1
      → Outcome (k + 1) left later m
      → let (all_slept, r', m') = attempted r delay called (slept, later, m) in
        Outcome k (suc left) r' m'
  unfolding attempted
  attempted-Outcome k left (ok c) delay slept called m later at calls o = record {
    failed = 0;
    in_time = omega arith;
    fails = tt;
    succeeds = subst (λ j. connect j ≡ ok c) (omega arith) at;
    kept = refl;
    calls = omega (arith, calls);
  }
  attempted-Outcome k left (raises x) delay slept called m later at calls o =
      later-Outcome k left later m (subst IsRaise (sym at) tt) o

  attempts-Outcome :
      (left attempt : ℕ) (m : ConnectionManager C)
      → m.connection ≡ none
      → let (slept, r, m') = attempts left attempt m in Outcome m.connects left r m'
  unfolding attempts
  attempts-Outcome zero attempt m closed = (refl, tt, closed, omega arith)
  attempts-Outcome (suc left) attempt m closed =
      let called : ConnectionManager C = record m { connects = m.connects + 1 } in
      let (slept, r, m') = attempts left (attempt + 1) called in
      attempted-Outcome m.connects left (connect m.connects)
        (if ltb (attempt + 1) m.max_retries then m.retry_delay * 2 ^ attempt ∷ [] else []) slept
        called m' r refl refl (attempts-Outcome left (attempt + 1) called closed)

  -- A manager without a connection that needs one calls `connect` until it succeeds, and keeps that
  -- connection, or gives up with a ConnectionError after as many failed calls as its `max_retries`.
  pub ensure_connected-Outcome :
      (m : ConnectionManager C)
      → m.connection ≡ none
      → let (slept, r, m') = ensure_connected m in Outcome m.connects m.max_retries r m'
  unfolding ensure_connected ensure_from
  ensure_connected-Outcome m closed =
      rw closed (attempts-Outcome m.max_retries 0 (record m { connection = none }) refl)

  -- What a caller of `send` finds, with the connection `c`: the answer of the call on it, and the
  -- manager holds it still; or the error of the call, and the manager has dropped it.
  abbrev pub Answered : {R : Type 0} → (C → Result R) → C → Result R → ConnectionManager C → Type 0
  Answered call c r m = (r ≡ call c) × (m.connection ≡ elim r [ ok a ↦ some c | raises x ↦ none ])

  answered-Answered :
      {R : Type 0} (call : C → Result R) (c : C) (r : Result R) (m : ConnectionManager C)
      → r ≡ call c
      → m.connection ≡ some c
      → let (r', m') = answered r m in Answered call c r' m'
  unfolding answered
  answered-Answered call c (ok a) m e held = (e, held)
  answered-Answered call c (raises x) m e held = (e, refl)

  answered-connects :
      {R : Type 0} (r : Result R) (m : ConnectionManager C)
      → let (r', m') = answered r m in m'.connects ≡ m.connects
  unfolding answered
  answered-connects (ok a) m = refl
  answered-connects (raises x) m = refl

  -- A manager that holds a connection uses it and calls `connect` not at all.
  pub send-Answered :
      {R : Type 0} (call : C → Result R) (c : C) (m : ConnectionManager C)
      → m.connection ≡ some c
      → let (r, m') = send call m in Answered call c r m' × (m'.connects ≡ m.connects)
  unfolding send ask ensure_connected ensure_from
  send-Answered call c m held =
      let m' : ConnectionManager C = record m { connection = some c } in
      (
        rw held (answered-Answered call c (call c) m' refl refl),
        rw held (answered-connects (call c) m'),
      )

unfoldable pub close : {C : Type 0} → ConnectionManager C → ConnectionManager C
close m = record m { connection = none }
