-- ===== src/Tests/BrachaRun.antt =====
-- A broadcast of bracha.py among four nodes, one of them faulty.
use distributed_algo.Prelude.{
  ◌≤◌, String, List, [], ◌∷◌, true, false, ◌≡◌, refl, arith, eq_string, ◌==◌, contains, add,
  IsDistinct, get, get_or, has, index, put, count_true, length, raises, type_error,
}
use distributed_algo.Bracha.Message.{
  BrachaMessage, Payload, object, dictionary, keyword, from_dictionary, message_of, echo_quorum,
}
use distributed_algo.Bracha.Ledger.{
  init_state, add_echo, add_ready, mark_echo, mark_ready, mark_delivered,
}
use distributed_algo.Bracha.Slot.{slot}
use distributed_algo.Bracha.Node.{
  init, count_phase, bracha, send, echo, check_completion, deliver, ready, dispatch, count_received,
  dolev_deliver, on_start, resume,
}
use distributed_algo.Bracha.System.{took, IsCorrect}
use distributed_algo.Bracha.System.Invariant.{slot_at}
use distributed_algo.Bracha.System.Safety
use distributed_algo.Bracha.System.Safety.{exception_of}
use distributed_algo.Bracha.System.Schedule.{Run, Event, begin, hear, fake, go_on, begun, play}

program : Unit {0}
unfolding contains add get get_or has index put count_true init_state add_echo add_ready mark_echo
    mark_ready mark_delivered slot init count_phase bracha send echo check_completion deliver ready
    dispatch count_received message_of from_dictionary keyword dolev_deliver on_start resume took
    play
program = tt

abbrev faulty : List String
faulty = "d" ∷ []

abbrev false_ready : BrachaMessage
false_ready = record { phase = "ready"; sender = "a"; msg_id = "m"; payload = "lie" }

-- `a` broadcasts; two correct echos and its own make a quorum, and `d` helps with READYs.
abbrev events : List Event
events =
    begin "a" "m"
    ∷ go_on "a"
    ∷ hear "b" 1
    ∷ hear "c" 2
    ∷ hear "a" 0
    ∷ hear "a" 1
    ∷ hear "b" 0
    ∷ fake "b" "d" false_ready
    ∷ hear "c" 1
    ∷ fake "c" "d" false_ready
    ∷ hear "a" 1
    ∷ hear "a" 0
    ∷ fake "a" "d" false_ready
    ∷ []

abbrev ran : Run faulty (λ i. i == "a") 1 3
ran = play faulty (λ i. i == "a") 1 3 events (begun faulty (λ i. i == "a") 1 3)

a_delivers : (slot_at ran.last "a" "m").delivered ≡ true
unfolding program
a_delivers = refl

abbrev lying : BrachaMessage
lying = record false_ready { payload = "another lie" }

-- a dictionary with one field too few
abbrev no_payload : Payload
no_payload = dictionary (("phase", "echo") ∷ ("sender", "a") ∷ ("msg_id", "m") ∷ [])

no_payload_raises : message_of no_payload ≡ raises type_error
unfolding program
no_payload_raises = refl

dolev_deliver-exception_of_example :
    exception_of (dolev_deliver 9 "d" (object lying) (ran.last.nodes "b"))
    ≡ exception_of (message_of (object lying))
dolev_deliver-exception_of_example =
    Safety.dolev_deliver-exception_of (omega arith) ran.reach 9 "b" "d" (object lying)

ready-has-quorum_example :
    (j : String) × IsCorrect faulty j
    × IsDistinct (slot_at ran.last j "m").echos
    × (echo_quorum 4 1 ≤ length (slot_at ran.last j "m").echos)
unfolding program
ready-has-quorum_example = Safety.ready-has-quorum (omega arith) ran.reach "a" "m" refl

delivered-has-readys_example :
    (x : String) × IsCorrect faulty x
    × (contains ("b" ∷ []) x ≡ false)
    × ((slot_at ran.last x "m").sent_ready ≡ true)
unfolding program
delivered-has-readys_example =
    Safety.delivered-has-readys (omega arith) ran.reach "a" "m" ("b" ∷ []) refl (omega arith)

delivered-was-echoed_example :
    (x : String) × IsCorrect faulty x × ((slot_at ran.last x "m").sent_echo ≡ true)
unfolding program
delivered-was-echoed_example =
    Safety.delivered-was-echoed (omega arith) ran.reach "a" "m" (omega arith) refl
