-- ===== src/Framework/Node/Wakeup.antt =====
-- node.py, `_monitor`: a wait for a change of the status begins on a fresh event, so a change that
-- came before it is lost.
use distributed_algo.Prelude.{
  ℕ, List, [], ◌∷◌, Bool, true, false, ◌≡◌, refl, ◌⊎◌, inl, inr, Option, none, ap, sym, subst, ◌∙◌,
  if◌then◌else◌,
}
use distributed_algo.Framework.Community.{stopping}
use distributed_algo.Framework.Messages.{Msgpack, Bytes}
use distributed_algo.Framework.Node.{
  Node, Monitor, Algorithm, looping, in_on_start, awaiting_change, update_status,
}
use distributed_algo.Framework.Lifecycle.{
  settle, monitor_after, monitor_at, monitor_round, algorithm_turn, shut_down,
}

-- what happens at a node that hears nothing: a round of the monitor, or a turn of the algorithm
pub data Quiet : Type 0 where
  round : ℕ → Quiet
  turned : Quiet

-- nothing is sent
abbrev pub Silent : List (Option Bytes) → Type 0
Silent [] = Unit
Silent (sent ∷ more) = (sent ≡ none) × Silent more

module _ {A M S : Type 0} (msgpack : Msgpack) (alg : Algorithm S) where
  unfoldable pub step : Quiet → Node A M S → Option Bytes × Node A M S
  step (round now) n = monitor_round msgpack alg now n
  step turned n = (none, algorithm_turn alg n)

  -- the messages that go out, and the node behind the steps
  unfoldable pub play : List Quiet → Node A M S → List (Option Bytes) × Node A M S
  unfolding step
  play [] n = ([], n)
  play (q ∷ qs) n = let (sent, n') = step q n in let (more, n'') = play qs n' in (sent ∷ more, n'')

  -- the status has changed to STOPPING, and the monitor does not look at it
  record Deaf (n : Node A M S) : Type 0 where
    status : n.status ≡ stopping
    waits : (n.monitor ≡ in_on_start) ⊎ ((n.monitor ≡ awaiting_change) × (n.status_changed ≡ false))

  settle-Deaf : (b : Bool) (n : Node A M S) → n.status ≡ stopping → Deaf (settle b n)
  unfolding settle
  settle-Deaf true n e = record { status = e; waits = inr (refl, refl) }
  settle-Deaf false n e = record { status = e; waits = inl refl }

  at_position :
      (now : ℕ) (n : Node A M S) (k : Monitor)
      → n.monitor ≡ k
      → Deaf n
      → monitor_at msgpack alg now k n ≡ (none, n)
      → ((monitor_round msgpack alg now n).0 ≡ none) × Deaf (monitor_round msgpack alg now n).1
  unfolding monitor_round
  at_position now n k at d same =
      subst (λ (r : Option Bytes × Node A M S). (r.0 ≡ none) × Deaf r.1)
        (sym (ap (λ (j : Monitor). monitor_at msgpack alg now j n) at ∙ same)) (refl, d)

  step-Deaf : (q : Quiet) (n : Node A M S) → Deaf n → ((step q n).0 ≡ none) × Deaf (step q n).1
  unfolding step monitor_round monitor_at algorithm_turn monitor_after
  step-Deaf (round now) n d = elim d.waits [
    | inl at ↦ at_position now n in_on_start at d refl
    | inr (at, unchanged) ↦ at_position now n awaiting_change at d (
        ap (λ (b : Bool). if b then (none, record n { monitor = looping }) else (none, n))
          unchanged)
  ]
  step-Deaf turned n d =
      let state = alg.turn n.state in
      let n' : Node A M S = record n { state = state } in
      (
        refl,
        elim d.waits [
          | inl at ↦
              subst (λ (k : Monitor). Deaf (monitor_after alg k state n')) (sym at)
                (settle-Deaf (alg.on_start_returned state) n' d.status)
          | inr (at, unchanged) ↦
              subst (λ (k : Monitor). Deaf (monitor_after alg k state n')) (sym at)
                (record { status = d.status; waits = inr (at, unchanged) })
        ],
      )

  play-Deaf :
      (qs : List Quiet) (n : Node A M S) → Deaf n → Silent (play qs n).0 × Deaf (play qs n).1
  unfolding play
  play-Deaf [] n d = (tt, d)
  play-Deaf (q ∷ qs) n d =
      let (silent, d') = step-Deaf q n d in
      let (more, d'') = play-Deaf qs (step q n).1 d' in ((silent, more), d'')

  pub shut_down-Silent :
      (qs : List Quiet) (n : Node A M S)
      → n.monitor ≡ in_on_start
      → Silent (play qs (shut_down n)).0 × ((play qs (shut_down n)).1.status ≡ stopping)
  unfolding shut_down update_status
  shut_down-Silent qs n at =
      let (silent, d) =
        play-Deaf qs (record n { status = stopping; status_changed = true })
          (record { status = refl; waits = inl at }) in
      (silent, d.status)
