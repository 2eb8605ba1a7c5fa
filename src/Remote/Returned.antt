-- ===== src/Remote/Returned.antt =====
-- distbench-py/distbench: a call of a peer returns what the handler at the peer returns.
use distributed_algo.Prelude.{
  ℕ, ◌+◌, ◌^◌, ◌<◌, String, [], ◌∷◌, ◌++◌, Bool, true, false, Option, some, length, Result, ok,
  eq_nat, ◌≡◌, refl, ap, ◌∙◌,
}
use distributed_algo.Framework.Messages
use distributed_algo.Framework.Messages.{
  Bytes, Value, str, bin, Msgpack, MessageType, Envelope, serialize_algorithm,
}
use distributed_algo.Framework.Community.{id_of}
use distributed_algo.Framework.Signing.{Obj, Crypto, AllAuthentic, recursive_verify-AllAuthentic}
use distributed_algo.Framework.Node
use distributed_algo.Framework.Node.{Node, value_length}
use distributed_algo.Framework.Tree.{Algorithm}
use distributed_algo.Framework.Tree.Route.{Call, calls, handle}
use distributed_algo.Framework.Tree.Peer.{send_message, read_response, accepts}
use distributed_algo.Transport.Framing.{cast_marker, bytes_u16}
use distributed_algo.Transport.Server.{Served, handle_client}
use distributed_algo.Transport.Requests.{Request, frames}
use distributed_algo.Transport.Connection.{opened, send, Called}
use distributed_algo.Transport.Exchange.{send-handle_client, handle_client-state}
use distributed_algo.Remote.{Invoke, hooks, serve_node, connect_peer}

-- the algorithm message that reaches a node from a peer it knows
handle_known :
    {M S : Type 0} (msgpack : Msgpack) (alg : Node.Algorithm S) (chars : String → ℕ) (address : ℕ)
    (n : Node ℕ M S) (p type_id : String) (payload message : Bytes) (response : Option Bytes)
    (s' : S)
    → id_of address n.community ≡ some p
    → Messages.deserialize msgpack message
      ≡ ok (record {
        msg_type = MessageType.algorithm;
        type_id = str type_id;
        payload = bin payload;
      })
    → alg.handle p (str type_id) (bin payload) n.state ≡ (ok response, s')
    → Node.handle msgpack alg chars address message n ≡ (
      ok response,
      record n {
        messages_received = n.messages_received + 1;
        bytes_received = n.bytes_received + length payload;
        state = s';
      },
    )
unfolding Node.handle value_length
handle_known msgpack alg chars address n p type_id payload message response s' known read handled =
    rw known (rw read (rw handled refl))

-- the value that `NodeMessage.algorithm` packs
abbrev pub algorithm_value : String → Bytes → Value
algorithm_value type_id payload = Value.arr (
    Messages.Values.cons (Value.int (Messages.code MessageType.algorithm))
      (Messages.Values.cons (str type_id) (Messages.Values.cons (bin payload) Messages.Values.nil)))

read_algorithm :
    (msgpack : Msgpack) (type_id : String) (payload : Bytes)
    → msgpack.unpackb (msgpack.packb (algorithm_value type_id payload))
      ≡ ok (algorithm_value type_id payload)
    → Messages.deserialize msgpack (serialize_algorithm msgpack type_id payload)
      ≡ ok (record {
        msg_type = MessageType.algorithm;
        type_id = str type_id;
        payload = bin payload;
      })
unfolding Messages.deserialize serialize_algorithm
read_algorithm msgpack type_id payload read = rw read refl

read_response_lem :
    {P : Type 0} (crypto : Crypto P) (deserialize : Value → String → Result Obj)
    (get_key : String → Option Bytes) (response_type : String) (b : ℕ) (bs : Bytes) (o : Obj)
    → deserialize (bin (b ∷ bs)) response_type ≡ ok o
    → AllAuthentic crypto get_key o
    → read_response crypto deserialize (some get_key) response_type (b ∷ bs) ≡ ok (some o)
unfolding read_response accepts
read_response_lem crypto deserialize get_key response_type b bs o read authentic =
    rw (read, (recursive_verify-AllAuthentic crypto get_key o).1 authentic) refl

module _ {V K C F M S P : Type 0} (crypto : Crypto P) (msgpack : Msgpack)
    (deserialize : Value → String → Result Obj) (serialize : Obj → Bytes) (chars : String → ℕ)
    -- the node that is called: its keys, its handlers, its algorithms and its stop event
    (keys : C → String → Option Bytes) (invoke : Invoke V K C F S) (root : Algorithm V K C F)
    (is_set : Node ℕ M S → Bool)
    -- whether its connection takes a reply
    (writes : Bytes → Bool) where
  -- the node that is called serves the connection of one client with one call
  abbrev pub serve_call : ℕ → String → Obj → Node ℕ M S → Served (Node ℕ M S)
  serve_call id type_id m n =
      handle_client
        (serve_node msgpack (hooks crypto keys deserialize serialize invoke root) chars is_set
          writes)
        n
        (bytes_u16 id
          ++ frames (Request.send (serialize_algorithm msgpack type_id (serialize m)) ∷ []))

  -- what is known of a call: that it can be answered, the caller, the route to a handler at the node, and its result
  pub record Handled (id : ℕ) (p type_id : String) (m o : Obj) (k : Call V K C F) (n : Node ℕ M S)
      (s' : S) : Type 0 where
    pub running : is_set n ≡ false
    pub taken : writes [] ≡ true
    pub known : id_of id n.community ≡ some p
    pub read :
        msgpack.unpackb (msgpack.packb (algorithm_value type_id (serialize m)))
        ≡ ok (algorithm_value type_id (serialize m))
    pub routed : handle crypto keys deserialize type_id (bin (serialize m)) root [] ≡ calls k
    pub handled : invoke p k n.state ≡ (ok (some o), s')

  Handled-handle :
      (id : ℕ) (p type_id : String) (m o : Obj) (k : Call V K C F) (n : Node ℕ M S) (s' : S)
      → Handled id p type_id m o k n s'
      → (serve_node msgpack
            (hooks crypto keys deserialize serialize invoke root)
            chars
            is_set
            writes).handle
          n id
          (serialize_algorithm msgpack type_id (serialize m))
        ≡ (
          record n {
            messages_received = n.messages_received + 1;
            bytes_received = n.bytes_received + length (serialize m);
            state = s';
          },
          ok (some (serialize o)),
        )
  unfolding serve_node
  Handled-handle id p type_id m o k n s' h =
      ap (λ (x : Result (Option Bytes) × Node ℕ M S). (x.1, x.0))
        (handle_known msgpack (hooks crypto keys deserialize serialize invoke root) chars id n p
          type_id (serialize m) (serialize_algorithm msgpack type_id (serialize m))
          (some (serialize o)) s' h.known (read_algorithm msgpack type_id (serialize m) h.read)
          (hooks_handle id p type_id m o k n s' h))
    where
      hooks_handle :
          (id : ℕ) (p type_id : String) (m o : Obj) (k : Call V K C F) (n : Node ℕ M S) (s' : S)
          → Handled id p type_id m o k n s'
          → (hooks crypto keys deserialize serialize invoke root).handle p
              (str type_id)
              (bin (serialize m))
              n.state
            ≡ (ok (some (serialize o)), s')
      hooks_handle id p type_id m o k n s' h = unfold hooks in rw (h.routed, h.handled) refl

  -- If a node that runs knows the caller and routes its message to a handler, which returns an object,
  -- then the call of the peer at the other end of the connection returns this object, and the node
  -- is left in the state of its handler. The connection takes the response, msgpack reads back the envelope, the caller's format reads
  -- the object back from its bytes, of which there are some, and its keystore has the keys of all
  -- signatures in it; the id fits in 16 bits, the response's length in 32, and the message is
  -- shorter than the mark of a `cast`.
  pub send_message-Handled :
      (get_key : String → Option Bytes) (id : ℕ) (p type_id response_type : String) (m o : Obj)
      (k : Call V K C F) (n : Node ℕ M S) (s' : S) (b : ℕ) (bs : Bytes)
      → Handled id p type_id m o k n s'
      → serialize o ≡ b ∷ bs
      → deserialize (bin (b ∷ bs)) response_type ≡ ok o
      → AllAuthentic crypto get_key o
      → id < 2 ^ 16
      → length (serialize_algorithm msgpack type_id (serialize m)) < cast_marker
      → length (serialize o) < 2 ^ 32
      → (send_message crypto deserialize
            (some get_key)
            (connect_peer msgpack (serve_call id type_id m n).written)
            serialize
            type_id
            m
            true
            (some response_type)
          ≡ ok (some o))
        × ((serve_call id type_id m n).state.state ≡ s')
  unfolding serve_node
  send_message-Handled get_key id p type_id response_type m o k n s' b bs h written read authentic
        id_fits fits response_fits =
      let server =
        serve_node msgpack (hooks crypto keys deserialize serialize invoke root) chars is_set
          writes in
      let message = serialize_algorithm msgpack type_id (serialize m) in
      let answered = Handled-handle id p type_id m o k n s' h in
      let sent : (send opened message true (serve_call id type_id m n).written).result
          ≡ ok (serialize o) =
        ap (λ (c : Called Bytes). c.result)
          (send-handle_client server id n _ message (some (serialize o)) id_fits fits h.running
            answered response_fits h.taken) in
      (
        call_lem get_key (serve_call id type_id m n).written type_id response_type m o b bs
            (sent ∙ ap (λ (x : Bytes). ok x) written) read authentic,
        ap (λ (x : Node ℕ M S). x.state)
            (handle_client-state server id n _ message (some (serialize o)) id_fits fits h.running
              answered response_fits h.taken),
      )
    where
      call_lem :
          (get_key : String → Option Bytes) (incoming : Bytes) (type_id response_type : String)
          (m o : Obj) (b : ℕ) (bs : Bytes)
          → (send opened (serialize_algorithm msgpack type_id (serialize m)) true incoming).result
            ≡ ok (b ∷ bs)
          → deserialize (bin (b ∷ bs)) response_type ≡ ok o
          → AllAuthentic crypto get_key o
          → send_message crypto deserialize
              (some get_key)
              (connect_peer msgpack incoming)
              serialize
              type_id
              m
              true
              (some response_type)
            ≡ ok (some o)
      call_lem get_key incoming type_id response_type m o b bs sent read authentic =
          unfold send_message connect_peer in
          rw sent (read_response_lem crypto deserialize get_key response_type b bs o read authentic)
