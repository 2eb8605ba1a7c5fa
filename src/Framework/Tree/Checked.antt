-- ===== src/Framework/Tree/Checked.antt =====
-- distbench-py/distbench/decorators.py: what holds of every call of a handler that `handle` makes.
use distributed_algo.Prelude.{
  String, List, [], ◌∷◌, ◌++◌, true, false, Option, none, some, get, has, ◌≡◌, refl, ap, subst,
  ◌==◌, eq_string, if-cases, Result, ok, raises,
}
use distributed_algo.Framework.Messages.{Bytes, Value}
use distributed_algo.Framework.Signing.{
  Obj, Crypto, recursive_verify, AllAuthentic, recursive_verify-AllAuthentic,
}
use distributed_algo.Framework.Tree.{
  HandlerInfo, ClassInfo, Context, Algorithm, algorithm, Children, no_child, child, class_info,
}
use distributed_algo.Framework.Tree.Route.{
  Call, Routed, dropped, calls, fails, keystore, call_verified, call_own, below, handle,
  handle_named, handle_implicit,
}

module _ {V K C F S : Type 0} (crypto : Crypto S) (keys : C → String → Option Bytes)
    (deserialize : Value → String → Result Obj) (msg_type_id : String) (payload : Value) where
  -- What holds of a call: it is of a handler of the instance's class for the message's type, at or
  -- below the path that was asked for, on the message that was sent, and every signature in the
  -- message is one of the known key of its signer.
  pub record Checked (path : List String) (k : Call V K C F) : Type 0 where
    pub implicit_path : List String
    pub at_path : k.path ≡ path ++ implicit_path
    pub handles : get k.cls.handler_methods k.method ≡ some k.info
    pub by_type : k.method ≡ msg_type_id
    pub read : deserialize payload k.info.msg_type ≡ ok k.message
    pub authentic : AllAuthentic crypto (keystore keys k.context.community) k.message

  abbrev pub IsChecked : List String → Routed V K C F → Type 0
  IsChecked path dropped = Unit
  IsChecked path (calls k) = Checked path k
  IsChecked path (fails x) = Unit

  call_verified-IsChecked :
      (cls : ClassInfo V) (c : Context K C F) (info : HandlerInfo) (r : Result Obj)
      → get cls.handler_methods msg_type_id ≡ some info
      → deserialize payload info.msg_type ≡ r
      → IsChecked [] (call_verified crypto keys deserialize cls c msg_type_id info r)
  unfolding call_verified
  call_verified-IsChecked cls c info (raises x) found read = tt
  call_verified-IsChecked cls c info (ok obj) found read =
      if-cases (λ (r : Routed V K C F). IsChecked [] r)
        (recursive_verify crypto (keystore keys c.community) obj)
        (λ verified. record {
          implicit_path = [];
          at_path = refl;
          handles = found;
          by_type = refl;
          read = read;
          authentic =
              (recursive_verify-AllAuthentic crypto (keystore keys c.community) obj).0 verified;
        })
        (λ refused. tt)

  call_own-IsChecked :
      (cls : ClassInfo V) (c : Context K C F) (found : Option HandlerInfo) (others : Routed V K C F)
      → get cls.handler_methods msg_type_id ≡ found
      → IsChecked [] others
      → IsChecked [] (call_own crypto keys deserialize cls c msg_type_id payload found others)
  unfolding call_own
  call_own-IsChecked cls c none others at h = h
  call_own-IsChecked cls c (some info) others at h =
      if-cases (λ (r : Routed V K C F). IsChecked [] r) info.is_resolved
        (λ e. call_verified-IsChecked cls c info (deserialize payload info.msg_type) at refl)
        (λ e. tt)

  below-IsChecked :
      (name : String) (path : List String) (r : Routed V K C F)
      → IsChecked path r
      → IsChecked (name ∷ path) (below name r)
  unfolding below
  below-IsChecked name path dropped h = tt
  below-IsChecked name path (fails x) h = tt
  below-IsChecked name path (calls k) h = record {
    implicit_path = h.implicit_path;
    at_path = ap (λ xs. name ∷ xs) h.at_path;
    handles = h.handles;
    by_type = h.by_type;
    read = h.read;
    authentic = h.authentic;
  }

  -- an implicit step into a child
  shorten-IsChecked :
      (name : String) (r : Routed V K C F) → IsChecked (name ∷ []) r → IsChecked [] r
  shorten-IsChecked name dropped h = tt
  shorten-IsChecked name (fails x) h = tt
  shorten-IsChecked name (calls k) h = record {
    implicit_path = name ∷ h.implicit_path;
    at_path = h.at_path;
    handles = h.handles;
    by_type = h.by_type;
    read = h.read;
    authentic = h.authentic;
  }

  mutual
    unfolding handle

    handled-IsChecked :
        (a : Algorithm V K C F) (path : List String)
        → IsChecked path (handle crypto keys deserialize msg_type_id payload a path)
    handled-IsChecked (algorithm name cls c t fields cs) (p ∷ path) = named-IsChecked cs p path
    handled-IsChecked (algorithm name cls c t fields cs) [] =
        call_own-IsChecked cls c (get cls.handler_methods msg_type_id) _ refl
          (implicit-IsChecked cs)

    named-IsChecked :
        (cs : Children V K C F) (p : String) (path : List String)
        → IsChecked (p ∷ path) (handle_named crypto keys deserialize msg_type_id payload cs p path)
    named-IsChecked no_child p path = tt
    named-IsChecked (child false name a cs) p path = named-IsChecked cs p path
    named-IsChecked (child true name a cs) p path =
        if-cases (λ (r : Routed V K C F). IsChecked (p ∷ path) r) (name == p)
          (λ e.
            subst
              (λ q.
                IsChecked (q ∷ path)
                  (below name (handle crypto keys deserialize msg_type_id payload a path)))
              ((eq_string.sound name p).0 e)
              (below-IsChecked name path _ (handled-IsChecked a path)))
          (λ e. named-IsChecked cs p path)

    implicit-IsChecked :
        (cs : Children V K C F)
        → IsChecked [] (handle_implicit crypto keys deserialize msg_type_id payload cs)
    implicit-IsChecked no_child = tt
    implicit-IsChecked (child false name a cs) = implicit-IsChecked cs
    implicit-IsChecked (child true name a cs) =
        if-cases (λ (r : Routed V K C F). IsChecked [] r)
          (has (class_info a).handler_methods msg_type_id)
          (λ e. shorten-IsChecked name _ (below-IsChecked name [] _ (handled-IsChecked a [])))
          (λ e. implicit-IsChecked cs)

  -- Whatever algorithm `handle` is called on, if it calls a method then that is the handler that the
  -- class of the called instance has for the message's type, the instance is at the path that was
  -- given or, behind it, in a child; the message is what the format reads from the bytes as the
  -- handler's type, and every signature in it is one of the known key of its signer.
  pub handle-Checked :
      (a : Algorithm V K C F) (path : List String) (k : Call V K C F)
      → handle crypto keys deserialize msg_type_id payload a path ≡ calls k
      → Checked path k
  handle-Checked a path k e = subst (λ r. IsChecked path r) e (handled-IsChecked a path)
