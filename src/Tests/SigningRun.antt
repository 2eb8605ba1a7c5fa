-- ===== src/Tests/SigningRun.antt =====
-- Signatures under a stand-in for the cryptography: a signature is the key and the digest.
use distributed_algo.Prelude.{
  String, [], ◌∷◌, ◌++◌, true, false, ◌≡◌, ◌↔◌, refl, Option, some, none, eq_string, eq_nat,
  eq_list, ◌==◌, ==_refl, if◌then◌else◌,
}
use distributed_algo.Framework.Messages.{Bytes}
use distributed_algo.Framework.Signing.{
  Obj, primitive, signed, message, nil, cons, Crypto, verify_with, recursive_verify, sign,
  recursive_verify-sign, AllAuthentic, recursive_verify-AllAuthentic,
}

program : Unit {0}
unfolding verify_with recursive_verify sign
program = tt

abbrev toy : Crypto Bytes
toy = record {
  digest = λ o. 1 ∷ [];
  is_key = λ k. true;
  verifies = λ k d s. (k ++ d) == s;
  public_key_bytes = λ k. k;
  sign_digest = λ k d. k ++ d;
}

abbrev keystore : String → Option Bytes
keystore p = if p == "a" then some (7 ∷ []) else none

-- a signature of an unknown node, inside of a message that `a` has signed
abbrev nested : Obj
nested = message (cons (signed (primitive "x") (3 ∷ 1 ∷ []) "b") nil)

unknown_refused : recursive_verify toy keystore nested ≡ false
unfolding program
unknown_refused = refl

recursive_verify-sign_example :
    recursive_verify toy keystore (sign toy (7 ∷ []) "a" nested)
    ≡ recursive_verify toy keystore nested
unfolding program
recursive_verify-sign_example =
    recursive_verify-sign toy keystore (7 ∷ []) "a" nested refl (λ d. ==_refl (7 ∷ d)) refl

recursive_verify-AllAuthentic_example :
    (recursive_verify toy keystore nested ≡ true) ↔ AllAuthentic toy keystore nested
recursive_verify-AllAuthentic_example = recursive_verify-AllAuthentic toy keystore nested
