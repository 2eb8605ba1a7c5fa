-- ===== src/Tests/ConnectionRun.antt =====
-- A manager of connection.py whose third call of `connect` succeeds.
use distributed_algo.Prelude.{
  ℕ, [], ◌∷◌, ◌≡◌, refl, some, ltb, if◌then◌else◌, Result, ok, raises, runtime_error,
}
use distributed_algo.Framework.Connection.{
  ConnectionManager, init, attempted, answered, ask, attempts, ensure_from, ensure_connected, send,
  Outcome, ensure_connected-Outcome,
}

program : Unit {0}
unfolding init attempted answered ask attempts ensure_from ensure_connected send
program = tt

abbrev third : ℕ → Result ℕ
third k = if ltb k 2 then raises runtime_error else ok 9

-- 3 attempts, with delays from 5 on
abbrev manager : ConnectionManager ℕ
manager = init 3 5

backs_off :
    attempts third 3 0 manager
    ≡ (5 ∷ 10 ∷ [], ok 9, record manager { connection = some 9; connects = 3 })
unfolding program
backs_off = refl

ensure_connected-Outcome_example :
    Outcome third 0 3 (ok 9) (record manager { connection = some 9; connects = 3 })
unfolding program
ensure_connected-Outcome_example = ensure_connected-Outcome third manager refl
