-- ===== src/Framework/Tree/Collect.antt =====
-- distbench-py/distbench/decorators.py: how `@distbench` collects the handlers of a class. What
-- `inspect` tells of a method is given.
use distributed_algo.Prelude.{
  ℕ, String, List, [], ◌∷◌, Bool, true, ◌&&◌, Option, none, some, Dict, get_or, put, ◌==◌,
  eq_string, leb, if◌then◌else◌,
}
use distributed_algo.Framework.Tree.{HandlerInfo}

-- a function of the class: the marks of `@handler`, the number of its parameters, the annotation of
-- the third (its name, and whether it is a class), and whether it has a return type
pub record Method : Type 0 where
  pub name : String
  pub is_handler : Bool
  pub from_child : Option String
  pub params : ℕ
  pub annotation : Option (String × Bool)
  pub has_return : Bool

-- `@handler(from_child=...)`
unfoldable pub handler : Option String → Method → Method
handler from_child m = record m { is_handler = true; from_child = from_child }

pub record Tables : Type 0 where
  pub handler_methods : Dict String HandlerInfo
  pub child_handlers : Dict String (Dict String HandlerInfo)

abbrev pub info_of : Method → String × Bool → HandlerInfo
info_of m (msg_type, is_resolved) = record {
  msg_type = msg_type;
  is_resolved = is_resolved;
  returns = m.has_return;
}

-- an entry for the child and the message's type
unfoldable pub add_child_handler : String → Method → String × Bool → Tables → Tables
add_child_handler from_child m annotation t = record t {
  child_handlers =
      put t.child_handlers from_child
        (put (get_or t.child_handlers from_child []) annotation.0 (info_of m annotation));
}

unfoldable pub add_handler : Method → String × Bool → Tables → Tables
add_handler m annotation t = record t {
  handler_methods = put t.handler_methods m.name (info_of m annotation);
}

-- The mark of a child counts when it is a name that is not empty.
unfoldable pub add_marked : Option String → Method → String × Bool → Tables → Tables
unfolding add_child_handler add_handler
add_marked none m annotation t = add_handler m annotation t
add_marked (some from_child) m annotation t =
    if from_child == ""
    then add_handler m annotation t
    else add_child_handler from_child m annotation t

unfoldable pub add_annotated : Option (String × Bool) → Method → Tables → Tables
unfolding add_marked
add_annotated none m t = t
add_annotated (some annotation) m t = add_marked m.from_child m annotation t

-- a round of the loop over the methods
unfoldable pub add_method : Method → Tables → Tables
unfolding add_annotated
add_method m t = if m.is_handler && leb 3 m.params then add_annotated m.annotation m t else t

unfoldable pub collect_from : List Method → Tables → Tables
unfolding add_method
collect_from [] t = t
collect_from (m ∷ ms) t = collect_from ms (add_method m t)

unfoldable pub collect : List Method → Tables
unfolding collect_from
collect ms = collect_from ms (record { handler_methods = []; child_handlers = [] })

-- the types that a peer can send: each handler's name, with whether an answer is awaited
unfoldable pub peer_methods : Dict String HandlerInfo → Dict String Bool
peer_methods [] = []
peer_methods ((name, info) ∷ d) = (name, info.returns) ∷ peer_methods d
