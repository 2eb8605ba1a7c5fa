-- ===== src/Framework/Tree/Route.antt =====
-- distbench-py/distbench/decorators.py: the `handle` that `@distbench` makes of the handlers of a
-- class. It finds the instance and the method; the call of the method is the result, and what the
-- method does is no part of it. The format and the cryptography are parameters.
use distributed_algo.Prelude.{
  String, List, [], ◌∷◌, true, false, Option, none, some, get, has, ◌==◌, eq_string, if◌then◌else◌,
  Result, ok, raises, Exception,
}
use distributed_algo.Framework.Messages.{Bytes, Value}
use distributed_algo.Framework.Signing.{Obj, Crypto, recursive_verify}
use distributed_algo.Framework.Tree.{
  HandlerInfo, ClassInfo, Context, Algorithm, algorithm, Children, no_child, child, class_info,
}

-- What is called: the method of a handler, with a message, on the instance at a path of children.
pub record Call (V K C F : Type 0) : Type 0 where
  pub path : List String
  pub cls : ClassInfo V
  pub context : Context K C F
  pub method : String
  pub info : HandlerInfo
  pub message : Obj

pub data Routed (V K C F : Type 0) : Type 0 where
  dropped : Routed V K C F
  calls : Call V K C F → Routed V K C F
  fails : Exception → Routed V K C F

-- An algorithm without a community has no keystore: `None.get_key` raises an exception, and
-- `recursive_verify` makes of it what it makes of a missing key.
unfoldable pub keystore :
    {C : Type 0} → (C → String → Option Bytes) → Option C → String → Option Bytes
keystore keys none signer = none
keystore keys (some community) signer = keys community signer

module _ {V K C F S : Type 0} (crypto : Crypto S) (keys : C → String → Option Bytes)
    -- `format.deserialize(data, cls)`
    (deserialize : Value → String → Result Obj) where
  unfoldable pub call_verified :
      ClassInfo V → Context K C F → String → HandlerInfo → Result Obj → Routed V K C F
  unfolding keystore recursive_verify
  call_verified cls c method info (raises x) = fails x
  call_verified cls c method info (ok obj) =
      if recursive_verify crypto (keystore keys c.community) obj
      then calls (record {
        path = [];
        cls = cls;
        context = c;
        method = method;
        info = info;
        message = obj;
      })
      else dropped

  unfoldable pub call_own :
      ClassInfo V
      → Context K C F
      → String
      → Value
      → Option HandlerInfo
      → Routed V K C F
      → Routed V K C F
  unfolding call_verified
  call_own cls c method payload none others = others
  call_own cls c method payload (some info) others =
      if info.is_resolved
      then call_verified cls c method info (deserialize payload info.msg_type)
      else dropped

-- the call as the parent of the instance sees it
unfoldable pub below : {V K C F : Type 0} → String → Routed V K C F → Routed V K C F
below name dropped = dropped
below name (calls k) = calls (record k { path = name ∷ k.path })
below name (fails x) = fails x

module _ {V K C F S : Type 0} (crypto : Crypto S) (keys : C → String → Option Bytes)
    (deserialize : Value → String → Result Obj) (msg_type_id : String) (payload : Value) where
  unfoldable mutual
    unfolding call_own below class_info

    pub handle : Algorithm V K C F → List String → Routed V K C F
    handle (algorithm name cls c t fields cs) (p ∷ path) = handle_named cs p path
    handle (algorithm name cls c t fields cs) [] =
        call_own crypto keys deserialize cls c msg_type_id payload
          (get cls.handler_methods msg_type_id) (handle_implicit cs)

    -- the child with a name
    pub handle_named : Children V K C F → String → List String → Routed V K C F
    handle_named no_child p path = dropped
    handle_named (child false name a cs) p path = handle_named cs p path
    handle_named (child true name a cs) p path =
        let later = handle_named cs p path in
        let found = below name (handle a path) in if name == p then found else later

    -- the first child whose class has a handler for the type
    pub handle_implicit : Children V K C F → Routed V K C F
    handle_implicit no_child = dropped
    handle_implicit (child false name a cs) = handle_implicit cs
    handle_implicit (child true name a cs) =
        let later = handle_implicit cs in
        let found = below name (handle a []) in
        if has (class_info a).handler_methods msg_type_id then found else later

-- what `handle` answers with the result of the method
unfoldable pub respond : (serialize : Obj → Bytes) → Option Obj → Option Bytes
respond serialize none = none
respond serialize (some result) = some (serialize result)
