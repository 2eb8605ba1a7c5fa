-- ===== src/Tests/PayloadRun.antt =====
-- A node of bracha.py with a quorum of READYs, of which none has this payload.
use distributed_algo.Prelude.{[], ◌∷◌, true, false, ◌≡◌, eq_string, has, get_or}
use distributed_algo.Bracha.Message.{BrachaMessage, object}
use distributed_algo.Bracha.Slot.{slot}
use distributed_algo.Bracha.Node.{Bracha, deliver_check, init, dolev_deliver, resume}
use distributed_algo.Bracha.Payload.{with_payload, repaint, map_result, dolev_deliver-repaint}

program : Unit {0}
unfolding has get_or init slot
program = tt

abbrev voted : Bracha
unfolding program
voted = record (init "a" false 1 3) {
  ledger = record {
    echos = ("m", []) ∷ [];
    readys = ("m", "b" ∷ "c" ∷ "d" ∷ []) ∷ [];
    sent_echo = ("m", false) ∷ [];
    sent_ready = ("m", true) ∷ [];
    delivered = ("m", false) ∷ [];
  };
}

abbrev honest : BrachaMessage
honest = record { phase = "ready"; sender = "b"; msg_id = "m"; payload = "hello" }

-- a READY with another payload makes the quorum deliver it
abbrev forged : BrachaMessage
forged = with_payload "forged" honest

dolev_deliver-repaint_example :
    (dolev_deliver 9 "e" (object forged) voted
      ≡ map_result (repaint "forged") (dolev_deliver 9 "e" (object honest) voted))
    × (resume 9 (deliver_check forged) voted
        ≡ map_result (repaint "forged") (resume 9 (deliver_check honest) voted))
dolev_deliver-repaint_example =
    dolev_deliver-repaint "forged" 9 "e" honest (deliver_check honest) voted
