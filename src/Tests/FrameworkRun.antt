-- ===== src/Tests/FrameworkRun.antt =====
-- Two nodes of node.py, under a stand-in for msgpack.
use distributed_algo.Prelude.{
  ℕ, ◌+◌, List, leb, String, [], ◌∷◌, true, ◌≡◌, refl, none, eq_string, eq_nat, nat_eqb,
  if◌then◌else◌, inl, has, get, get_or, put, ok, raises, value_error, Result,
}
use distributed_algo.Framework.Messages.{
  Bytes, Value, null, int, str, bin, arr, nil, cons, message_type, pubkey, started, finished,
  algorithm, Msgpack, serialize_pubkey, serialize_started, serialize_finished, serialize_algorithm,
  open_envelope, read_envelope, deserialize, deserialize-serialize, envelopes,
}
use distributed_algo.Framework.Community.{
  running, starting, stopping, init as community_init, open_connections, reverse_addresses,
  set_status, statuses, get_status, id_of, has_all_keys, add_key,
}
use distributed_algo.Framework.Node.{
  Node, Algorithm, in_on_start, awaiting_finished, awaiting_started, init, update_status,
  all_running, all_terminated, mark_peer, hear_started, hear_finished, hear_pubkey, dispatch,
  handle_from, handle_sender, handle, is_running, is_terminated,
}
use distributed_algo.Framework.Lifecycle.{
  monitor_branch, pass, monitor_at, monitor_round, shut_down,
}
use distributed_algo.Framework.Node.Barrier.{message, step, runs-together, ends-together}
use distributed_algo.Framework.Node.Wakeup.{Quiet, round, turned, play, Silent, shut_down-Silent}

program : Unit {0}
unfolding has get get_or put message_type open_envelope read_envelope deserialize serialize_started
    serialize_pubkey serialize_finished serialize_algorithm envelopes community_init
    open_connections reverse_addresses set_status statuses get_status id_of has_all_keys add_key
    init update_status all_running all_terminated mark_peer hear_started hear_finished hear_pubkey
    dispatch handle_from handle_sender handle monitor_branch pass monitor_at monitor_round shut_down
    step
program = tt

abbrev packed : Value → Bytes
packed (arr (cons (int t) (cons (bin k) nil))) = t ∷ k
packed (arr (cons (int t) (cons (str s) (cons (bin b) nil)))) = t ∷ b
packed (arr (cons (int t) nil)) = t ∷ []
packed v = []

abbrev unpacked : Bytes → Result Value
unpacked [] = raises value_error
unpacked (t ∷ b) = ok (
    arr (
      cons (int t) (
        if nat_eqb t 1
        then cons (bin b) nil
        else if nat_eqb t 4
        then cons (str "m") (cons (bin b) nil)
        else nil)))

abbrev stand_in : Msgpack
stand_in = record { packb = packed; unpackb = unpacked }

deserialize-serialize_example :
    (deserialize stand_in (serialize_pubkey stand_in (7 ∷ []))
      ≡ ok (record { msg_type = pubkey; type_id = null; payload = bin (7 ∷ []) }))
    × (deserialize stand_in (serialize_started stand_in)
        ≡ ok (record { msg_type = started; type_id = null; payload = null }))
    × (deserialize stand_in (serialize_finished stand_in)
        ≡ ok (record { msg_type = finished; type_id = null; payload = null }))
    × (deserialize stand_in (serialize_algorithm stand_in "m" (8 ∷ 9 ∷ []))
        ≡ ok (record { msg_type = algorithm; type_id = str "m"; payload = bin (8 ∷ 9 ∷ []) }))
unfolding program
deserialize-serialize_example =
    deserialize-serialize stand_in (7 ∷ []) (8 ∷ 9 ∷ []) "m" (refl, (refl, (refl, (refl, tt))))

abbrev idle : Algorithm ℕ
idle = record {
  handle = λ p t v s. (ok none, s);
  on_start = λ s. s;
  on_start_returned = λ s. true;
  turn = λ s. s;
  on_exit = λ s. s;
}

abbrev chars : String → ℕ
chars s = 0

-- the node `a`, whose only peer is `b` at the address 2
abbrev starting_node : Node ℕ ℕ ℕ
starting_node = record (init "a" (community_init (λ a. a) ("b" ∷ []) (("b", 2) ∷ [])) 0 (5 ∷ [])) {
  status = starting;
  monitor = awaiting_started;
}

runs-together_example :
    is_running
      (get_status "b" (step stand_in idle chars (message 2 (2 ∷ [])) starting_node).community)
    ≡ true
unfolding program
runs-together_example =
    runs-together stand_in idle chars (message 2 (2 ∷ [])) starting_node "b" refl refl (inl refl)

ends-together_example :
    is_terminated (
      get_status "b"
        (step stand_in idle chars
          (message 2 (3 ∷ []))
          (record starting_node { status = stopping; monitor = awaiting_finished })).community)
    ≡ true
unfolding program
ends-together_example =
    ends-together stand_in idle chars (message 2 (3 ∷ []))
      (record starting_node { status = stopping; monitor = awaiting_finished }) "b" refl refl
      (inl refl)

abbrev started_node : Node ℕ ℕ ℕ
started_node = record starting_node { status = running; monitor = in_on_start }

-- `on_start` returns in the second turn, and the monitor looks again later
abbrev slow : Algorithm ℕ
slow = record idle { turn = λ s. s + 1; on_start_returned = λ s. leb 2 s }

abbrev quiet_steps : List Quiet
quiet_steps = turned ∷ round 4 ∷ turned ∷ round 9 ∷ []

shut_down-Silent_example :
    Silent (play stand_in slow quiet_steps (shut_down started_node)).0
    × ((play stand_in slow quiet_steps (shut_down started_node)).1.status ≡ stopping)
shut_down-Silent_example = shut_down-Silent stand_in slow quiet_steps started_node refl
