-- ===== src/Bracha/Message.antt =====
-- distbench-py/distbench/algorithms/bracha.py: the message, and the integer thresholds.
use distributed_algo.Prelude.{
  ℕ, ◌+◌, ◌*◌, ◌/◌, String, Dict, get, length, nat_eqb, eq_string, Option, none, some,
  if◌then◌else◌, Result, ok, raises, type_error, attribute_error, ◌>>=◌,
}

pub record BrachaMessage : Type 0 where
  pub phase : String
  pub sender : String
  pub msg_id : String
  pub payload : String

-- What Dolev delivers in place of a message: an object, a dictionary, or something else. The values of a
-- dictionary are strings.
pub data Payload : Type 0 where
  object : BrachaMessage → Payload
  dictionary : Dict String String → Payload
  other : Payload

-- an argument by its keyword
unfoldable pub keyword : Option String → Result String
keyword none = raises type_error
keyword (some v) = ok v

-- `BrachaMessage(**payload)`, which takes each field and nothing else
unfoldable pub from_dictionary : Dict String String → Result BrachaMessage
unfolding keyword get
from_dictionary d =
    if nat_eqb (length d) 4
    then (do
      phase ← keyword (get d "phase")
      sender ← keyword (get d "sender")
      msg_id ← keyword (get d "msg_id")
      payload ← keyword (get d "payload")
      ok (record { phase = phase; sender = sender; msg_id = msg_id; payload = payload }))
    else raises type_error

-- the message of a payload; what is no message has no `phase`
unfoldable pub message_of : Payload → Result BrachaMessage
unfolding from_dictionary
message_of (object msg) = ok msg
message_of (dictionary d) = from_dictionary d
message_of other = raises attribute_error

-- `math.ceil((N + f + 1) / 2)`
abbrev pub echo_quorum : ℕ → ℕ → ℕ
echo_quorum n f = (n + f + 1 + 1) / 2

-- `2 * f + 1`
abbrev pub ready_quorum : ℕ → ℕ
ready_quorum f = 2 * f + 1
