-- ===== src/Simple/Carried.antt =====
-- distbench-py/distbench/algorithms/simple_broadcast.py over the framework of decorators.py and
-- algorithm.py: the two layers with `interface`, `deliver_message` and `deliver` between them.
use distributed_algo.Prelude.{
  String, Bool, true, some, none, Option, contains, eq_string, IsDistinct, All, All-map, Result, ok,
  raises, ◌≡◌, refl, ◌∙◌, ap,
}
use distributed_algo.Framework.Messages.{Bytes, Values, arr, str, bin}
use distributed_algo.Framework.Signing.{Obj, Crypto, AllAuthentic}
use distributed_algo.Framework.Tree.{HandlerInfo, ClassInfo, Context}
use distributed_algo.Framework.Tree.Route.{Routed, dropped, calls, fails, keystore}
use distributed_algo.Framework.Tree.Deliver.{
  Format, interface, deliver_message, deliver_asked, find_handler, deliver-interface,
}
use distributed_algo.Simple.{UpperMessage, broadcast_echo, Upper, Layers, echo_content, on_start}
use distributed_algo.Simple.Received.{numbered, Carries}
use distributed_algo.Simple.Started.{Started, on_start-Started}

-- the message of the handler that is called
unfoldable pub handled :
    {V K C F : Type 0} → (Obj → Option UpperMessage) → Routed V K C F → Result (Option UpperMessage)
handled of_object dropped = ok none
handled of_object (fails x) = raises x
handled of_object (calls k) = ok (of_object k.message)

ok_same : {A : Type 0} (x y : A) → ok x ≡ ok y → x ≡ y
ok_same x y e = cc

module _ {V K C S : Type 0} (crypto : Crypto S) (keys : C → String → Option Bytes)
    -- the class of the layer above, and what an instance of it knows
    (cls : ClassInfo V) (c : Context K C Format) (format : Format)
    -- a message as an object, and the name of its type
    (type_id : UpperMessage → String) (as_object : UpperMessage → Obj)
    (of_object : Obj → Option UpperMessage) (encode : String → Bytes)
    (arrives : String → Bytes → Bool) where
  unfoldable pub layers : Layers
  unfolding interface deliver_message deliver_asked handled
  layers = record {
    interface = λ m. interface (some format) (type_id m) (as_object m);
    deliver = λ bytes.
        handled of_object
          (deliver_asked crypto keys cls c (deliver_message true (some format) bytes));
    encode = encode;
    arrives = arrives;
  }

  -- The layer above has a handler for the message, the format reads back the two wrappers and the
  -- message, its signatures are those of known keys, and the call of `p` with it does not raise.
  pub record Readable (p : String) (m : UpperMessage) : Type 0 where
    pub info : HandlerInfo
    pub listed : find_handler cls.child_handlers (type_id m) ≡ some info
    pub resolved : info.is_resolved ≡ true
    pub algorithm :
        format.deserialize_algorithm
          (format.serialize_algorithm (type_id m, format.serialize (as_object m)))
        ≡ ok (type_id m, format.serialize (as_object m))
    pub envelope :
        format.deserialize_tuple
          (format.serialize_envelope (type_id m, format.serialize (as_object m)))
        ≡ ok (
            arr (
              Values.cons
                (str (type_id m))
                (Values.cons (bin (format.serialize (as_object m))) Values.nil)))
    pub object :
        format.deserialize (bin (format.serialize (as_object m))) info.msg_type ≡ ok (as_object m)
    pub authentic : AllAuthentic crypto (keystore keys c.community) (as_object m)
    pub same : of_object (as_object m) ≡ some m
    pub reaches :
        arrives p (format.serialize_algorithm (type_id m, format.serialize (as_object m))) ≡ true

  Readable-Carries : (p : String) (m : UpperMessage) → Readable p m → Carries layers p m
  unfolding layers interface handled
  Readable-Carries p m r =
      let (bytes, wrapped, called) =
        deliver-interface crypto keys cls c format (type_id m) (as_object m) r.info r.listed
          r.resolved r.algorithm r.envelope r.object r.authentic in
      let handed = format.serialize_algorithm (type_id m, format.serialize (as_object m)) in
      record {
        bytes = handed;
        wrapped = refl;
        delivered =
            ap
              (λ (b : Bytes).
                handled of_object
                  (deliver_asked crypto keys cls c (deliver_message true (some format) b)))
              (ok_same handed bytes wrapped)
            ∙ ap (handled of_object) called
            ∙ ap (λ (o : Option UpperMessage). ok o) r.same;
        arrives = r.reaches;
      }

  pub on_start-Started_carried :
      (p id : String) (u v : Upper)
      → u.start_node ≡ true
      → u.lower.node_id ≡ some id
      → IsDistinct u.lower.peers
      → contains u.lower.peers p ≡ true
      → All (Readable p) (numbered encode 0 u.messages)
      → Readable p (broadcast_echo (echo_content encode) id)
      → Started layers p id u v (on_start layers u)
  unfolding layers
  on_start-Started_carried p id u v starts named d member readable echo =
      on_start-Started layers p id u v starts named d member
        (All-map (Readable p) (Carries layers p) (numbered encode 0 u.messages) (Readable-Carries p)
          readable)
        (Readable-Carries p (broadcast_echo (echo_content encode) id) echo)
