-- ===== src/Framework/Tree/Keystore.antt =====
-- distbench-py/distbench/decorators.py and node.py: the keys that the handlers of child algorithms
-- verify with.
use distributed_algo.Prelude.{
  ℕ, String, List, [], ◌∷◌, Bool, true, false, ◌||◌, Option, none, some, get, has, ◌≡◌, refl, subst,
  arith, ◌⊎◌, inl, inr, ◌==◌, eq_string, if-cases, Result, ok, raises,
}
use distributed_algo.Framework.Messages.{Bytes, Value}
use distributed_algo.Framework.Signing.{
  Obj, Objs, Pairs, Crypto, recursive_verify, AllAuthentic, EachAuthentic, PairsAuthentic,
}
use distributed_algo.Framework.Tree.{
  HandlerInfo, ClassInfo, Class, Context, Algorithm, algorithm, Children, no_child, child,
  class_info,
}
use distributed_algo.Framework.Tree.Init.{Yaml, new_init}
use distributed_algo.Framework.Tree.SetUp.{set_up, known, Follows, EachFollows, set_up-Follows}
use distributed_algo.Framework.Tree.Route.{
  Call, Routed, dropped, calls, fails, keystore, call_verified, call_own, below, handle,
  handle_named, handle_implicit,
}
use distributed_algo.Framework.Tree.Checked.{handle-Checked}

-- a signature somewhere in the object
unfoldable mutual
  pub has_signed : Obj → Bool
  has_signed Obj.null = false
  has_signed (Obj.primitive t) = false
  has_signed (Obj.container os) = any_signed os
  has_signed (Obj.mapping ps) = pair_signed ps
  has_signed (Obj.signed value signature signer) = true
  has_signed (Obj.message fields) = any_signed fields
  has_signed (Obj.opaque t) = false

  pub any_signed : Objs → Bool
  any_signed Objs.nil = false
  any_signed (Objs.cons o os) = has_signed o || any_signed os

  pub pair_signed : Pairs → Bool
  pair_signed Pairs.no_pair = false
  pair_signed (Pairs.pair k v ps) = has_signed k || has_signed v || pair_signed ps

neither : (a b : Bool) → a ≡ false → b ≡ false → (a || b) ≡ false
neither a b h k = ground arith

-- Without keys, only an object without signatures has none that fails.
module _ {S C : Type 0} (crypto : Crypto S) (keys : C → String → Option Bytes) where
  mutual
    unfolding has_signed keystore

    unsigned : (o : Obj) → AllAuthentic crypto (keystore keys none) o → has_signed o ≡ false
    unsigned Obj.null h = refl
    unsigned (Obj.primitive t) h = refl
    unsigned (Obj.container os) h = unsigned_all os h
    unsigned (Obj.mapping ps) h = unsigned_pairs ps h
    unsigned (Obj.signed value signature signer) h = absurd (ground (arith, h.0.known))
    unsigned (Obj.message fields) h = unsigned_all fields h
    unsigned (Obj.opaque t) h = refl

    unsigned_all :
        (os : Objs) → EachAuthentic crypto (keystore keys none) os → any_signed os ≡ false
    unsigned_all Objs.nil h = refl
    unsigned_all (Objs.cons o os) h = neither _ _ (unsigned o h.0) (unsigned_all os h.1)

    unsigned_pairs :
        (ps : Pairs) → PairsAuthentic crypto (keystore keys none) ps → pair_signed ps ≡ false
    unsigned_pairs Pairs.no_pair h = refl
    unsigned_pairs (Pairs.pair k v ps) h =
        neither _ _ (neither _ _ (unsigned k h.0) (unsigned v h.1.0)) (unsigned_pairs ps h.1.1)

module _ {V K C F S : Type 0} (crypto : Crypto S) (keys : C → String → Option Bytes)
    (deserialize : Value → String → Result Obj) (msg_type_id : String) (payload : Value) where
  -- a call on the instance itself, or one on an instance without a community
  abbrev Keyless : Context K C F → Routed V K C F → Type 0
  Keyless own dropped = Unit
  Keyless own (calls k) = ((k.path ≡ []) × (k.context ≡ own)) ⊎ (k.context.community ≡ none)
  Keyless own (fails x) = Unit

  call_verified-Keyless :
      (cls : ClassInfo V) (c : Context K C F) (info : HandlerInfo) (r : Result Obj)
      → Keyless c (call_verified crypto keys deserialize cls c msg_type_id info r)
  unfolding call_verified
  call_verified-Keyless cls c info (raises x) = tt
  call_verified-Keyless cls c info (ok obj) =
      if-cases (λ (r : Routed V K C F). Keyless c r)
        (recursive_verify crypto (keystore keys c.community) obj) (λ e. inl (refl, refl)) (λ e. tt)

  call_own-Keyless :
      (cls : ClassInfo V) (c : Context K C F) (found : Option HandlerInfo) (others : Routed V K C F)
      → Keyless c others
      → Keyless c (call_own crypto keys deserialize cls c msg_type_id payload found others)
  unfolding call_own
  call_own-Keyless cls c none others h = h
  call_own-Keyless cls c (some info) others h =
      if-cases (λ (r : Routed V K C F). Keyless c r) info.is_resolved
        (λ e. call_verified-Keyless cls c info (deserialize payload info.msg_type)) (λ e. tt)

  below-Keyless :
      (name : String) (own child_knows : Context K C F) (r : Routed V K C F)
      → child_knows.community ≡ none
      → Keyless child_knows r
      → Keyless own (below name r)
  unfolding below
  below-Keyless name own child_knows dropped keyless h = tt
  below-Keyless name own child_knows (fails x) keyless h = tt
  below-Keyless name own child_knows (calls k) keyless (inl (at, e)) = inr (rw e keyless)
  below-Keyless name own child_knows (calls k) keyless (inr e) = inr e

  mutual
    unfolding handle

    handled-Keyless :
        (own knows : Context K C F) (a : Algorithm V K C F) (path : List String)
        → knows.community ≡ none
        → Follows own knows a
        → Keyless own (handle crypto keys deserialize msg_type_id payload a path)
    handled-Keyless own knows (algorithm name cls c t fields cs) (p ∷ path) keyless (e, h) =
        named-Keyless own knows cs p path keyless h
    handled-Keyless own knows (algorithm name cls c t fields cs) [] keyless (e, h) =
        subst
          (λ x. Keyless x (
            call_own crypto keys deserialize cls c msg_type_id payload
              (get cls.handler_methods msg_type_id)
              (handle_implicit crypto keys deserialize msg_type_id payload cs)))
          e
          (call_own-Keyless cls c (get cls.handler_methods msg_type_id) _
            (implicit-Keyless c knows cs keyless h))

    named-Keyless :
        (own knows : Context K C F) (cs : Children V K C F) (p : String) (path : List String)
        → knows.community ≡ none
        → EachFollows knows cs
        → Keyless own (handle_named crypto keys deserialize msg_type_id payload cs p path)
    named-Keyless own knows no_child p path keyless h = tt
    named-Keyless own knows (child false name a cs) p path keyless (h, later) =
        named-Keyless own knows cs p path keyless later
    named-Keyless own knows (child true name a cs) p path keyless (h, later) =
        if-cases (λ (r : Routed V K C F). Keyless own r) (name == p)
          (λ e.
            below-Keyless name own knows _ keyless (handled-Keyless knows knows a path keyless h))
          (λ e. named-Keyless own knows cs p path keyless later)

    implicit-Keyless :
        (own knows : Context K C F) (cs : Children V K C F)
        → knows.community ≡ none
        → EachFollows knows cs
        → Keyless own (handle_implicit crypto keys deserialize msg_type_id payload cs)
    implicit-Keyless own knows no_child keyless h = tt
    implicit-Keyless own knows (child false name a cs) keyless (h, later) =
        implicit-Keyless own knows cs keyless later
    implicit-Keyless own knows (child true name a cs) keyless (h, later) =
        if-cases (λ (r : Routed V K C F). Keyless own r)
          (has (class_info a).handler_methods msg_type_id)
          (λ e. below-Keyless name own knows _ keyless (handled-Keyless knows knows a [] keyless h))
          (λ e. implicit-Keyless own knows cs keyless later)

  -- In an algorithm that the constructor of its class returns, and that the constructor of its node
  -- has set up, a handler of a child algorithm is never called with a message that has a signature
  -- anywhere in it: a call behind a path, or on a child, has a message without signatures.
  pub handle-unsigned :
      (yaml : Yaml V) (cls : Class V) (config : V) (a : Algorithm V K C F) (node_id : String)
      (total : ℕ) (keypair : K) (format : F) (community : C) (path : List String) (k : Call V K C F)
      (p : String) (rest : List String)
      → new_init yaml cls config ≡ ok a
      → handle crypto keys deserialize msg_type_id payload
          (set_up node_id total keypair format community a)
          path
        ≡ calls k
      → k.path ≡ p ∷ rest
      → has_signed k.message ≡ false
  handle-unsigned yaml cls config a node_id total keypair format community path k p rest built e
        on_child =
      let checked = handle-Checked crypto keys deserialize msg_type_id payload _ path k e in
      let keyless : Keyless (known node_id total keypair format (some community)) (calls k) =
        subst (λ r. Keyless (known node_id total keypair format (some community)) r) e
          (handled-Keyless _ (known node_id total keypair format none) _ path refl
            (set_up-Follows yaml cls config a node_id total keypair format community built)) in
      elim keyless [
        | inl (at, same) ↦ absurd (cc (at, on_child))
        | inr lost ↦
            unsigned crypto keys k.message
              (subst (λ c. AllAuthentic crypto (keystore keys c) k.message) lost checked.authentic)
      ]
