-- ===== src/Framework/Tree/Deliver.antt =====
-- distbench-py/distbench/decorators.py and algorithm.py: from a call of an `@interface` method to the
-- handler of the parent: `interface`, `deliver_message` and `deliver`.
use distributed_algo.Prelude.{
  String, [], ◌∷◌, Bool, true, false, Option, none, some, Dict, get, has, ◌≡◌, refl, eq_string,
  if◌then◌else◌, Result, ok, raises, runtime_error, name_error, type_error, ◌>>=◌,
}
use distributed_algo.Framework.Messages.{Bytes, Value, Values, bin, str, arr}
use distributed_algo.Framework.Signing.{Obj, Crypto, AllAuthentic, recursive_verify-AllAuthentic}
use distributed_algo.Framework.Tree.{HandlerInfo, ClassInfo, Context}
use distributed_algo.Framework.Tree.Route.{Routed, dropped, calls, fails, keystore, call_verified}

-- What the code asks of a serialization format; an `AlgorithmMessage` is a type id with bytes.
pub record Format : Type 0 where
  pub serialize : Obj → Bytes
  pub serialize_algorithm : String × Bytes → Bytes
  pub serialize_envelope : String × Bytes → Bytes
  pub deserialize : Value → String → Result Obj
  pub deserialize_algorithm : Bytes → Result (String × Bytes)
  pub deserialize_tuple : Bytes → Result Value

-- the wrapper that `@interface` puts round a method: what the method is called with
unfoldable pub interface : Option Format → (type_id : String) → Obj → Result Bytes
interface none type_id m = raises runtime_error
interface (some format) type_id m = ok (format.serialize_algorithm (type_id, format.serialize m))

-- the envelope that a child hands to its parent; a message that cannot be read leaves `alg_msg` unbound
unfoldable pub envelope : Format → Result (String × Bytes) → Result Bytes
envelope format (raises x) = raises name_error
envelope format (ok message) = ok (format.serialize_envelope message)

-- `deliver_message`, up to the call of the parent's `deliver`: its format and its bytes
unfoldable pub deliver_message :
    (has_parent : Bool) → Option Format → Bytes → Result (Option (Format × Bytes))
unfolding envelope
deliver_message false format bytes = ok none
deliver_message true none bytes = raises runtime_error
deliver_message true (some format) bytes = do
  wrapped ← envelope format (format.deserialize_algorithm bytes)
  ok (some (format, wrapped))

-- the first child with a handler for the type
unfoldable pub find_handler : Dict String (Dict String HandlerInfo) → String → Option HandlerInfo
find_handler [] type_id = none
find_handler ((name, infos) ∷ children) type_id =
    let later = find_handler children type_id in
    if has infos type_id then get infos type_id else later

module _ {V K C S : Type 0} (crypto : Crypto S) (keys : C → String → Option Bytes) where
  unfoldable pub deliver_to :
      Format
      → ClassInfo V
      → Context K C Format
      → String
      → Value
      → Option HandlerInfo
      → Routed V K C Format
  unfolding call_verified
  deliver_to format cls c type_id payload none = dropped
  deliver_to format cls c type_id payload (some info) =
      if info.is_resolved
      then call_verified crypto keys format.deserialize cls c type_id info
          (format.deserialize payload info.msg_type)
      else dropped

  -- a list cannot be a key of a dictionary, which is noticed when there is one
  unfoldable pub look_up_list : Dict String (Dict String HandlerInfo) → Routed V K C Format
  look_up_list [] = dropped
  look_up_list (d ∷ ds) = fails type_error

  -- the checks on the envelope
  unfoldable pub deliver_envelope :
      Format → ClassInfo V → Context K C Format → Result Value → Routed V K C Format
  unfolding deliver_to find_handler look_up_list
  deliver_envelope format cls c (ok (arr (Values.cons (str type_id) (Values.cons p Values.nil)))) =
      deliver_to format cls c type_id p (find_handler cls.child_handlers type_id)
  deliver_envelope format cls c (ok (arr (Values.cons (arr vs) (Values.cons p Values.nil)))) =
      look_up_list cls.child_handlers
  deliver_envelope format cls c r = dropped

  -- `deliver`, with the parent's class and what it knows
  unfoldable pub deliver : ClassInfo V → Context K C Format → Bytes → Format → Routed V K C Format
  unfolding deliver_envelope
  deliver cls c bytes format = deliver_envelope format cls c (format.deserialize_tuple bytes)

  -- what the parent makes of what the child asks for
  unfoldable pub deliver_asked :
      ClassInfo V → Context K C Format → Result (Option (Format × Bytes)) → Routed V K C Format
  unfolding deliver
  deliver_asked cls c (raises x) = fails x
  deliver_asked cls c (ok none) = dropped
  deliver_asked cls c (ok (some (format, bytes))) = deliver cls c bytes format

  -- A layer that hands the bytes of an interface call to its parent reaches the parent's handler
  -- for the type of the message, with the message: if the format reads back the two wrappers and,
  -- as the type that the handler names, the message, and every signature in the message is one of
  -- a key that the parent knows.
  pub deliver-interface :
      (cls : ClassInfo V) (c : Context K C Format) (format : Format) (type_id : String) (m : Obj)
      (info : HandlerInfo)
      → find_handler cls.child_handlers type_id ≡ some info
      → info.is_resolved ≡ true
      → format.deserialize_algorithm (format.serialize_algorithm (type_id, format.serialize m))
        ≡ ok (type_id, format.serialize m)
      → format.deserialize_tuple (format.serialize_envelope (type_id, format.serialize m))
        ≡ ok (arr (Values.cons (str type_id) (Values.cons (bin (format.serialize m)) Values.nil)))
      → format.deserialize (bin (format.serialize m)) info.msg_type ≡ ok m
      → AllAuthentic crypto (keystore keys c.community) m
      → (bytes : Bytes) × (interface (some format) type_id m ≡ ok bytes)
        × (deliver_asked cls c (deliver_message true (some format) bytes)
            ≡ calls (record {
              path = [];
              cls = cls;
              context = c;
              method = type_id;
              info = info;
              message = m;
            }))
  unfolding interface deliver_message envelope deliver_asked deliver deliver_envelope deliver_to
      call_verified
  deliver-interface cls c format type_id m info found resolved read_message read_tuple read_obj
        authentic =
      (
        format.serialize_algorithm (type_id, format.serialize m),
        refl,
        rw
            (
              read_message,
              read_tuple,
              found,
              resolved,
              read_obj,
              (recursive_verify-AllAuthentic crypto (keystore keys c.community) m).1 authentic,
            )
            refl,
      )
