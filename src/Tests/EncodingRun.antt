-- ===== src/Tests/EncodingRun.antt =====
-- A class with a list of signed hops, through a codec that keeps the data.
use distributed_algo.Prelude.{
  true, false, none, ok, raises, type_error, ◌>>=◌, ◌≡◌, refl, eq_string,
}
use distributed_algo.Prelude.{[], ◌∷◌}
use distributed_algo.Framework.Encoding.{
  Py, prim, sequence, dictionary, instance_of, nil, cons, Entries, no_entry, entry, Ty, plain,
  sequence_of, dataclass, generic, no_field, field, find, deserialize, asdict, Codec, serialize,
  deserialize_bytes,
}
use distributed_algo.Framework.Encoding.RoundTrip.{as_lists, HasType, deserialize_bytes-serialize}

program : Unit {0}
unfolding deserialize serialize deserialize_bytes as_lists find
program = tt

abbrev hop_type : Ty
hop_type = dataclass "Hop" (field "node" plain none no_field)

abbrev signed_type : Ty
signed_type =
    generic "Signed" hop_type
      (field "value" plain none (field "signature" plain none (field "signer" plain none no_field)))

abbrev chain_type : Ty
chain_type = dataclass "Chain" (field "hops" (sequence_of false signed_type) none no_field)

abbrev hop : Entries
hop = entry "node" (prim "a") no_entry

abbrev signed : Py
signed = instance_of "Signed" (
    entry "value" (instance_of "Hop" hop)
      (entry "signature" (prim "s") (entry "signer" (prim "a") no_entry)))

abbrev chain : Entries
chain = entry "hops" (sequence false (cons signed nil)) no_entry

-- writes one byte, and reads the chain from it
abbrev codec : Codec
codec = record {
  pack = λ v. ok (1 ∷ []);
  unpack = λ b. ok (as_lists (asdict (instance_of "Chain" chain)));
}

hop-HasType : HasType hop_type (instance_of "Hop" hop)
unfolding program
hop-HasType = (refl, (refl, refl, tt, tt))

signed-HasType : HasType signed_type signed
unfolding program
signed-HasType = (refl, (refl, refl, hop-HasType, (refl, refl, tt, (refl, refl, tt, tt))))

chain-HasType : HasType chain_type (instance_of "Chain" chain)
unfolding program
chain-HasType = (refl, (refl, refl, (refl, (signed-HasType, tt)), tt))

-- A tuple takes the type of its first item for all of them: the second is read as a hop, too.
two_types :
    deserialize
      (sequence_of true hop_type)
      (sequence false (cons (dictionary hop) (cons (dictionary no_entry) nil)))
    ≡ raises type_error
unfolding program
two_types = refl

deserialize_bytes-serialize_example :
    (do b ← serialize codec (instance_of "Chain" chain); deserialize_bytes codec b chain_type)
    ≡ ok (instance_of "Chain" chain)
deserialize_bytes-serialize_example =
    deserialize_bytes-serialize codec chain_type "Chain" chain (1 ∷ []) chain-HasType refl refl
