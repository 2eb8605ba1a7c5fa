-- ===== src/Tests/TreeRun.antt =====
-- A class with a child algorithm: how messages are routed in it, and what its node sets in it.
use distributed_algo.Prelude.{
  String, List, [], ◌∷◌, Bool, true, false, none, some, get, has, ◌==◌, eq_string, if◌then◌else◌,
  Result, ok, raises, value_error, ◌≡◌, refl,
}
use distributed_algo.Framework.Messages.{Bytes, Value, Values, bin, str, arr}
use distributed_algo.Framework.Signing.{Obj, Crypto}
use distributed_algo.Framework.Tree.{
  HandlerInfo, ClassInfo, Class, class, no_field, child_field, blank, Algorithm, algorithm,
  no_child, child, id,
}
use distributed_algo.Framework.Tree.Init.{Yaml, new_init}
use distributed_algo.Framework.Tree.SetUp.{set_up, known, Follows, set_up-Follows}
use distributed_algo.Framework.Tree.Route.{Call, Routed, dropped, calls, fails, handle}
use distributed_algo.Framework.Tree.Checked.{Checked, handle-Checked}
use distributed_algo.Framework.Tree.Keystore.{has_signed, handle-unsigned}
use distributed_algo.Framework.Tree.Deliver.{
  Format, interface, deliver_message, deliver_asked, find_handler, deliver-interface,
}

-- no configuration at all
abbrev yaml : Yaml Unit
yaml = record { get_field = λ v name. none; empty = tt }

abbrev toy : Crypto Unit
toy = record {
  digest = λ o. [];
  is_key = λ k. true;
  verifies = λ k d s. true;
  public_key_bytes = λ k. [];
  sign_digest = λ k d. [];
}

abbrev info : HandlerInfo
info = record { msg_type = "Ping"; is_resolved = true; returns = false }

-- the lower layer handles `ping`, the upper layer takes what the lower delivers
abbrev lower_info : ClassInfo Unit
lower_info = record {
  config_fields = [];
  resets = false;
  handler_methods = ("ping", info) ∷ [];
  child_handlers = [];
}

abbrev lower : Class Unit
lower = class lower_info no_field

abbrev upper_info : Bool → ClassInfo Unit
upper_info resets = record {
  config_fields = [];
  resets = resets;
  handler_methods = [];
  child_handlers = ("lower", ("Ping", info) ∷ []) ∷ [];
}

abbrev upper : Bool → Class Unit
upper resets = class (upper_info resets) (child_field "lower" lower no_field)

abbrev Tree : Type 0
Tree = Algorithm Unit Unit Unit Format

-- the bytes are the object
abbrev read_object : Value → String → Result Obj
read_object v t = if t == "Ping" then ok (Obj.primitive "ping") else raises value_error

abbrev format : Format
format = record {
  serialize = λ o. 1 ∷ [];
  serialize_algorithm = λ m. 2 ∷ m.1;
  serialize_envelope = λ m. 3 ∷ m.1;
  deserialize = read_object;
  deserialize_algorithm = λ b. ok ("Ping", 1 ∷ []);
  deserialize_tuple =
      λ b. ok (arr (Values.cons (str "Ping") (Values.cons (bin (1 ∷ [])) Values.nil)));
}

abbrev route : Tree → List String → Routed Unit Unit Unit Format
route a path = handle toy (λ c p. none) read_object "ping" (bin []) a path

program : Unit {0}
unfolding new_init set_up handle has_signed find_handler interface id get has
program = tt

abbrev is_called : Routed Unit Unit Unit Format → Bool
is_called dropped = false
is_called (calls k) = true
is_called (fails x) = false

abbrev routed : Bool → List String → Result Bool
routed resets path = elim (new_init yaml {K = Unit} {C = Unit} {F = Format} (upper resets) tt) [
  | ok a ↦ ok (is_called (route (set_up "n1" 4 tt format tt a) path))
  | raises x ↦ raises x
]

-- a message for the lower layer finds it, with and without a path
implicit_route : routed false [] ≡ ok true
unfolding program
implicit_route = refl

explicit_route : routed false ("lower" ∷ []) ≡ ok true
unfolding program
explicit_route = refl

-- A class with an `__init__` that calls the one of `Algorithm` has lost its child.
lost_route : routed true ("lower" ∷ []) ≡ ok false
unfolding program
lost_route = refl

abbrev built : Tree
built =
    algorithm "" (upper_info false) blank false []
      (child true "lower" (algorithm "lower" lower_info blank false [] no_child) no_child)

built_lem : new_init yaml (upper false) tt ≡ ok built
unfolding program
built_lem = refl

abbrev deployed : Tree
deployed = set_up "n1" 4 tt format tt built

set_up-Follows_example :
    Follows (known "n1" 4 tt format (some tt)) (known "n1" 4 tt format none) deployed
set_up-Follows_example = set_up-Follows yaml (upper false) tt built "n1" 4 tt format tt built_lem

abbrev called : Call Unit Unit Unit Format
called = record {
  path = "lower" ∷ [];
  cls = lower_info;
  context = known "n1" 4 tt format none;
  method = "ping";
  info = info;
  message = Obj.primitive "ping";
}

called_lem : route deployed [] ≡ calls called
unfolding program
called_lem = refl

handle-Checked_example : Checked toy (λ c p. none) read_object "ping" (bin []) [] called
handle-Checked_example =
    handle-Checked toy (λ c p. none) read_object "ping" (bin []) deployed [] called called_lem

handle-unsigned_example : has_signed called.message ≡ false
handle-unsigned_example =
    handle-unsigned toy (λ c p. none) read_object "ping" (bin []) yaml (upper false) tt built "n1" 4
      tt format tt [] called "lower" [] built_lem called_lem refl

abbrev delivered : Call Unit Unit Unit Format
delivered = record {
  path = [];
  cls = upper_info false;
  context = known "n1" 4 tt format (some tt);
  method = "Ping";
  info = info;
  message = Obj.primitive "ping";
}

found_lem : find_handler (upper_info false).child_handlers "Ping" ≡ some info
unfolding program
found_lem = refl

deliver-interface_example :
    (bytes : Bytes) × (interface (some format) "Ping" (Obj.primitive "ping") ≡ ok bytes)
    × (deliver_asked toy
          (λ c p. none)
          (upper_info false)
          (known "n1" 4 tt format (some tt))
          (deliver_message true (some format) bytes)
        ≡ calls delivered)
deliver-interface_example =
    deliver-interface toy (λ c p. none) (upper_info false) (known "n1" 4 tt format (some tt)) format
      "Ping" (Obj.primitive "ping") info found_lem refl refl refl refl tt
