-- ===== src/Framework/Tree/Peer.antt =====
-- distbench-py/distbench/algorithm.py: `Peer`, which sends a message to another node and reads its
-- response. The connection manager is given by the results of its two calls.
use distributed_algo.Prelude.{
  String, [], ◌∷◌, Bool, true, false, Option, none, some, if◌then◌else◌, if-cases, Result, ok,
  raises, ◌>>=◌,
}
use distributed_algo.Framework.Messages.{Bytes, Value, bin}
use distributed_algo.Framework.Signing.{
  Obj, Crypto, recursive_verify, AllAuthentic, recursive_verify-AllAuthentic,
}

-- `conn_manager.cast` and `conn_manager.send`, on the type and the payload of the message
pub record Connector : Type 0 where
  pub cast : String → Bytes → Result (Unit {0})
  pub send : String → Bytes → Result Bytes

module _ {S : Type 0} (crypto : Crypto S) (deserialize : Value → String → Result Obj)
    -- the keystore of the peer proxy, if it has one
    (keystore : Option (String → Option Bytes)) where
  unfoldable pub accepts : Option (String → Option Bytes) → Obj → Bool
  unfolding recursive_verify
  accepts none response = true
  accepts (some get_key) response = recursive_verify crypto get_key response

  -- the response behind its bytes: an empty one and one that does not verify are `None`
  unfoldable pub read_response : (response_type : String) → Bytes → Result (Option Obj)
  unfolding accepts
  read_response response_type [] = ok none
  read_response response_type (b ∷ bs) = do
    response ← deserialize (bin (b ∷ bs)) response_type
    ok (if accepts keystore response then some response else none)

  -- `_send_message`; without a response type the code asks the format for a `dict`
  unfoldable pub send_message :
      Connector
      → (serialize : Obj → Bytes) → (msg_type : String) → Obj
      → (expect_response : Bool) → (response_type : Option String) → Result (Option Obj)
  unfolding read_response
  send_message connector serialize msg_type m false response_type = do
    _ ← connector.cast msg_type (serialize m)
    ok none
  send_message connector serialize msg_type m true none = do
    bytes ← connector.send msg_type (serialize m)
    read_response "dict" bytes
  send_message connector serialize msg_type m true (some response_type) = do
    bytes ← connector.send msg_type (serialize m)
    read_response response_type bytes

-- With a keystore, what a caller gets of a response is authentic.
abbrev Genuine : {S : Type 0} → Crypto S → (String → Option Bytes) → Result (Option Obj) → Type 0
Genuine crypto get_key (ok (some response)) = AllAuthentic crypto get_key response
Genuine crypto get_key r = Unit

module _ {S : Type 0} (crypto : Crypto S) (deserialize : Value → String → Result Obj)
    (get_key : String → Option Bytes) where
  decoded-Genuine :
      (response : Result Obj)
      → Genuine crypto get_key
          (do obj ← response; ok (if recursive_verify crypto get_key obj then some obj else none))
  decoded-Genuine (raises x) = tt
  decoded-Genuine (ok obj) =
      if-cases (λ (o : Option Obj). Genuine crypto get_key (ok o))
        (recursive_verify crypto get_key obj)
        (λ e. (recursive_verify-AllAuthentic crypto get_key obj).0 e) (λ e. tt)

  read_response-Genuine :
      (response_type : String) (bytes : Result Bytes)
      → Genuine crypto get_key
          (do b ← bytes; read_response crypto deserialize (some get_key) response_type b)
  unfolding read_response accepts
  read_response-Genuine response_type (raises x) = tt
  read_response-Genuine response_type (ok []) = tt
  read_response-Genuine response_type (ok (b ∷ bs)) =
      decoded-Genuine (deserialize (bin (b ∷ bs)) response_type)

  cast-Genuine : (r : Result (Unit {0})) → Genuine crypto get_key (do _ ← r; ok none)
  cast-Genuine (raises x) = tt
  cast-Genuine (ok _) = tt

  -- Whatever comes back over the connection, a call of a peer that returns a response returns one in
  -- which every signature is one of a key in the keystore; an empty response is None.
  pub send_message-Genuine :
      (connector : Connector) (serialize : Obj → Bytes) (msg_type : String) (m : Obj)
      (expect_response : Bool) (response_type : Option String)
      → Genuine crypto get_key (
          send_message crypto deserialize
            (some get_key)
            connector
            serialize
            msg_type
            m
            expect_response
            response_type)
  unfolding send_message
  send_message-Genuine connector serialize msg_type m false response_type =
      cast-Genuine (connector.cast msg_type (serialize m))
  send_message-Genuine connector serialize msg_type m true none =
      read_response-Genuine "dict" (connector.send msg_type (serialize m))
  send_message-Genuine connector serialize msg_type m true (some response_type) =
      read_response-Genuine response_type (connector.send msg_type (serialize m))
