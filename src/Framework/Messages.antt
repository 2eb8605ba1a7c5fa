-- ===== src/Framework/Messages.antt =====
-- distbench-py/distbench/messages.py: the envelope of the messages between nodes. msgpack, which
-- turns a value into bytes and back, is a parameter.
use distributed_algo.Prelude.{
  ℕ, String, List, [], ◌∷◌, Bool, true, false, not, eq_string, ◌==◌, ◌≡◌, nat_eqb, if◌then◌else◌,
  Result, ok, raises, value_error, All, ◌>>=◌,
}

abbrev pub Bytes : Type 0
Bytes = List ℕ

-- The values that the envelope is made of; msgpack's other values are
-- `other`, with their truth value.
mutual
  pub data Value : Type 0 where
    null : Value
    int : ℕ → Value
    str : String → Value
    bin : Bytes → Value
    arr : Values → Value
    other : Bool → Bytes → Value

  pub data Values : Type 0 where
    nil : Values
    cons : Value → Values → Values

-- `if v`
abbrev pub truthy : Value → Bool
truthy null = false
truthy (int n) = not (nat_eqb n 0)
truthy (str s) = not (s == "")
truthy (bin []) = false
truthy (bin (b ∷ bs)) = true
truthy (arr nil) = false
truthy (arr (cons v vs)) = true
truthy (other t bs) = t

-- `msgpack.packb(v, use_bin_type=True)` and `msgpack.unpackb(b, raw=False)`
pub record Msgpack : Type 0 where
  pub packb : Value → Bytes
  pub unpackb : Bytes → Result Value

pub data MessageType : Type 0 where
  pubkey started finished algorithm : MessageType

abbrev pub code : MessageType → ℕ
code pubkey = 1
code started = 2
code finished = 3
code algorithm = 4

-- `MessageType(v)`
unfoldable pub message_type : Value → Result MessageType
message_type (int n) =
    if nat_eqb n 1
    then ok pubkey
    else if nat_eqb n 2
    then ok started
    else if nat_eqb n 3
    then ok finished
    else if nat_eqb n 4
    then ok algorithm
    else raises value_error
message_type v = raises value_error

-- What `deserialize` returns: `type_id` and `payload` are `None` where the type has none.
pub record Envelope : Type 0 where
  pub msg_type : MessageType
  pub type_id : Value
  pub payload : Value

-- the checks on the number of elements
unfoldable pub open_envelope : MessageType → Values → Result Envelope
open_envelope algorithm (cons t (cons b nil)) =
    ok (record { msg_type = algorithm; type_id = t; payload = b })
open_envelope algorithm vs = raises value_error
open_envelope pubkey (cons k nil) = ok (record { msg_type = pubkey; type_id = null; payload = k })
open_envelope pubkey vs = raises value_error
open_envelope t vs = ok (record { msg_type = t; type_id = null; payload = null })

unfoldable pub read_envelope : Value → Result Envelope
unfolding message_type open_envelope
read_envelope (arr (cons t vs)) = do kind ← message_type t; open_envelope kind vs
read_envelope v = raises value_error

-- the four values that the envelope hands to msgpack
unfoldable pub envelopes : Bytes → String → Bytes → List Value
envelopes k t b =
    arr (cons (int (code pubkey)) (cons (bin k) nil))
    ∷ arr (cons (int (code started)) nil)
    ∷ arr (cons (int (code finished)) nil)
    ∷ arr (cons (int (code algorithm)) (cons (str t) (cons (bin b) nil)))
    ∷ []

module _ (msgpack : Msgpack) where
  unfoldable pub serialize_pubkey : Bytes → Bytes
  serialize_pubkey k = msgpack.packb (arr (cons (int (code pubkey)) (cons (bin k) nil)))

  unfoldable pub serialize_started : Bytes
  serialize_started = msgpack.packb (arr (cons (int (code started)) nil))

  unfoldable pub serialize_finished : Bytes
  serialize_finished = msgpack.packb (arr (cons (int (code finished)) nil))

  unfoldable pub serialize_algorithm : String → Bytes → Bytes
  serialize_algorithm t b =
      msgpack.packb (arr (cons (int (code algorithm)) (cons (str t) (cons (bin b) nil))))

  unfoldable pub deserialize : Bytes → Result Envelope
  unfolding read_envelope
  deserialize b = do v ← msgpack.unpackb b; read_envelope v

  -- If msgpack reads back the four values that the envelope writes, `deserialize` returns from each
  -- of the four kinds of message its type and its content.
  pub deserialize-serialize :
      (k payload : Bytes) (type_id : String)
      → All (λ v. msgpack.unpackb (msgpack.packb v) ≡ ok v) (envelopes k type_id payload)
      → (deserialize (serialize_pubkey k)
          ≡ ok (record { msg_type = pubkey; type_id = null; payload = bin k }))
        × (deserialize serialize_started
            ≡ ok (record { msg_type = started; type_id = null; payload = null }))
        × (deserialize serialize_finished
            ≡ ok (record { msg_type = finished; type_id = null; payload = null }))
        × (deserialize (serialize_algorithm type_id payload)
            ≡ ok (record { msg_type = algorithm; type_id = str type_id; payload = bin payload }))
  unfolding deserialize serialize_pubkey serialize_started serialize_finished serialize_algorithm
      envelopes
  deserialize-serialize k payload type_id read =
      (rw read.0, rw read.1.0, rw read.1.1.0, rw read.1.1.1.0)
