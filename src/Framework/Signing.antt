-- ===== src/Framework/Signing.antt =====
-- distbench-py/distbench/signing.py, and the `verify` that `@message` of decorators.py adds: the
-- verification of all signatures in an object. The cryptography and the digest are parameters.
use distributed_algo.Prelude.{
  String, Bool, true, false, ◌&&◌, ◌≡◌, refl, ◌↔◌, arith, Option, none, some,
}
use distributed_algo.Framework.Messages.{Bytes}

-- The objects that `recursive_verify` tells apart; lists, tuples and sets are one kind.
mutual
  pub data Obj : Type 0 where
    null : Obj
    primitive : String → Obj
    container : Objs → Obj
    mapping : Pairs → Obj
    signed : (value : Obj) → (signature : Bytes) → (signer : String) → Obj
    message : (fields : Objs) → Obj
    opaque : String → Obj

  pub data Objs : Type 0 where
    nil : Objs
    cons : Obj → Objs → Objs

  pub data Pairs : Type 0 where
    no_pair : Pairs
    pair : (key : Obj) → (value : Obj) → Pairs → Pairs

-- `VerifyKey(key)` succeeds; `verify_key.verify(digest, signature)` does not raise
pub record Crypto (K : Type 0) : Type 0 where
  pub digest : Obj → Bytes
  pub is_key : Bytes → Bool
  pub verifies : Bytes → Bytes → Bytes → Bool
  pub public_key_bytes : K → Bytes
  pub sign_digest : K → Bytes → Bytes

-- `KeyPair.sign`
unfoldable pub sign : {K : Type 0} → Crypto K → K → String → Obj → Obj
sign crypto signing_key peer_id value =
    signed value (crypto.sign_digest signing_key (crypto.digest value)) peer_id

module _ {K : Type 0} (crypto : Crypto K) (get_key : String → Option Bytes) where
  -- the checks of `Signed.verify` but for the nested content
  unfoldable pub verify_with : Option Bytes → Obj → Bytes → Bool
  verify_with none value signature = false
  verify_with (some key) value signature =
      crypto.is_key key && crypto.verifies key (crypto.digest value) signature

  unfoldable mutual
    unfolding verify_with

    pub recursive_verify : Obj → Bool
    recursive_verify null = true
    recursive_verify (primitive t) = true
    recursive_verify (container os) = verify_all os
    recursive_verify (mapping ps) = verify_pairs ps
    recursive_verify (signed value signature signer) =
        verify_with (get_key signer) value signature && recursive_verify value
    recursive_verify (message fields) = verify_all fields
    recursive_verify (opaque t) = true

    pub verify_all : Objs → Bool
    verify_all nil = true
    verify_all (cons o os) = recursive_verify o && verify_all os

    pub verify_pairs : Pairs → Bool
    verify_pairs no_pair = true
    verify_pairs (pair k v ps) = recursive_verify k && recursive_verify v && verify_pairs ps

  -- The signer has a key, and the signature is one of its key on the value.
  pub record Authentic (value : Obj) (signature : Bytes) (signer : String) : Type 0 where
    pub key : Bytes
    pub known : get_key signer ≡ some key
    pub is_key : crypto.is_key key ≡ true
    pub signs : crypto.verifies key (crypto.digest value) signature ≡ true

  -- every signed part, however deep, is authentic
  abbrev mutual
    pub AllAuthentic : Obj → Type 0
    AllAuthentic null = Unit
    AllAuthentic (primitive t) = Unit
    AllAuthentic (container os) = EachAuthentic os
    AllAuthentic (mapping ps) = PairsAuthentic ps
    AllAuthentic (signed value signature signer) =
        Authentic value signature signer × AllAuthentic value
    AllAuthentic (message fields) = EachAuthentic fields
    AllAuthentic (opaque t) = Unit

    pub EachAuthentic : Objs → Type 0
    EachAuthentic nil = Unit
    EachAuthentic (cons o os) = AllAuthentic o × EachAuthentic os

    pub PairsAuthentic : Pairs → Type 0
    PairsAuthentic no_pair = Unit
    PairsAuthentic (pair k v ps) = AllAuthentic k × (AllAuthentic v × PairsAuthentic ps)

  and_both : (a b : Bool) → a && b ≡ true → (a ≡ true) × (b ≡ true)
  and_both a b h = ground arith

  verify_with-Authentic :
      (value : Obj) (signature : Bytes) (signer : String) (key : Option Bytes)
      → get_key signer ≡ key
      → verify_with key value signature ≡ true
      → Authentic value signature signer
  unfolding verify_with
  verify_with-Authentic value signature signer none e h = absurd (ground arith)
  verify_with-Authentic value signature signer (some key) e h =
      let (a, b) = and_both _ _ h in record { key = key; known = e; is_key = a; signs = b }

  Authentic-verify_with :
      (value : Obj) (signature : Bytes) (signer : String)
      → Authentic value signature signer
      → verify_with (get_key signer) value signature ≡ true
  unfolding verify_with
  Authentic-verify_with value signature signer a = rw (a.known, a.is_key, a.signs) refl

  mutual
    unfolding recursive_verify

    sound : (o : Obj) → recursive_verify o ≡ true → AllAuthentic o
    sound null h = tt
    sound (primitive t) h = tt
    sound (container os) h = sound_all os h
    sound (mapping ps) h = sound_pairs ps h
    sound (signed value signature signer) h =
        let (a, b) = and_both _ _ h in
        (verify_with-Authentic value signature signer (get_key signer) refl a, sound value b)
    sound (message fields) h = sound_all fields h
    sound (opaque t) h = tt

    sound_all : (os : Objs) → verify_all os ≡ true → EachAuthentic os
    sound_all nil h = tt
    sound_all (cons o os) h = let (a, b) = and_both _ _ h in (sound o a, sound_all os b)

    sound_pairs : (ps : Pairs) → verify_pairs ps ≡ true → PairsAuthentic ps
    sound_pairs no_pair h = tt
    sound_pairs (pair k v ps) h =
        let (both, later) = and_both _ _ h in
        let (a, b) = and_both _ _ both in (sound k a, (sound v b, sound_pairs ps later))

  mutual
    unfolding recursive_verify

    complete : (o : Obj) → AllAuthentic o → recursive_verify o ≡ true
    complete null h = refl
    complete (primitive t) h = refl
    complete (container os) h = complete_all os h
    complete (mapping ps) h = complete_pairs ps h
    complete (signed value signature signer) h =
        rw (Authentic-verify_with value signature signer h.0, complete value h.1) refl
    complete (message fields) h = complete_all fields h
    complete (opaque t) h = refl

    complete_all : (os : Objs) → EachAuthentic os → verify_all os ≡ true
    complete_all nil h = refl
    complete_all (cons o os) h = rw (complete o h.0, complete_all os h.1) refl

    complete_pairs : (ps : Pairs) → PairsAuthentic ps → verify_pairs ps ≡ true
    complete_pairs no_pair h = refl
    complete_pairs (pair k v ps) h =
        rw (complete k h.0, complete v h.1.0, complete_pairs ps h.1.1) refl

  -- `recursive_verify` accepts an object if and only if every signature in it, at any depth, is one
  -- of the known key of its signer on the value that it stands with.
  pub recursive_verify-AllAuthentic : (o : Obj) → (recursive_verify o ≡ true) ↔ AllAuthentic o
  recursive_verify-AllAuthentic o = (sound o, complete o)

  -- Where keys and signatures are right, and the key of the node is known, what the node has signed
  -- is accepted if and only if the content is.
  pub recursive_verify-sign :
      (signing_key : K) (peer_id : String) (value : Obj)
      → crypto.is_key (crypto.public_key_bytes signing_key) ≡ true
      → ((d : Bytes)
          → crypto.verifies
              (crypto.public_key_bytes signing_key)
              d
              (crypto.sign_digest signing_key d)
            ≡ true)
      → get_key peer_id ≡ some (crypto.public_key_bytes signing_key)
      → recursive_verify (sign crypto signing_key peer_id value) ≡ recursive_verify value
  unfolding recursive_verify sign verify_with
  recursive_verify-sign signing_key peer_id value is_key signs known =
      rw (known, is_key, signs (crypto.digest value)) refl
