-- ===== src/Dolev/Handlers.antt =====
-- distbench-py/distbench/algorithms/dolev.py: `dolev` and `my_deliver`, with the broadcasts. Each
-- `await` gives the event loop back, so a handler is a chain of turns: a turn sends one message, or
-- calls the parent, and leaves the rest of the coroutine. `time.time()` is an argument.
use distributed_algo.Prelude.{
  ℕ, String, List, [], ◌∷◌, ◌++◌, Bool, true, false, not, ◌&&◌, Option, none, some, eq_string,
  eq_list, ◌==◌, get_or, has, put, contains, add, if◌then◌else◌,
}
use distributed_algo.Dolev.State.{
  DMsg, Dolev, ensure_neighbours, note_delivered, open_metric, stamp_delivery, count_forward,
}
use distributed_algo.Dolev.Graph.{Networkx, dist_paths}

-- What follows a call of `my_deliver`: nothing, or the rest of the handler.
pub data Then (P : Type 0) : Type 0 where
  finished : Then P
  rest_of_dolev : String → DMsg P → Then P

-- The rest of a coroutine behind an `await`: a forwarded message, the handler of the parent, an
-- empty message.
pub data Task (P : Type 0) : Type 0 where
  forwarding : DMsg P → (new_path : List String) → (known : Bool) → (peers : List String) → Task P
  told_parent : (direct : Bool) → DMsg P → Then P → Task P
  emptying : DMsg P → Then P → (peers : List String) → Task P

pub record Turn (P : Type 0) : Type 0 where
  pub node : Dolev
  pub sends : Option (String × DMsg P)
  pub upcall : Option (DMsg P)
  pub rest : Option (Task P)

abbrev pub done : {P : Type 0} → Dolev → Turn P
done s = record { node = s; sends = none; upcall = none; rest = none }

-- `delivered_neighbours` is the live set of the dictionary if there is one at the start of the
-- loop, and an empty set of its own otherwise
abbrev pub delivered_neighbours : Bool → String → Dolev → List String
delivered_neighbours known m s = if known then get_or s.neighbour_delivered m [] else []

-- `self.paths.setdefault(msg_id, [])`, and the path if it is new
unfoldable pub record_path : String → List String → Dolev → Dolev
record_path m new_path s =
    let known = get_or s.paths m [] in
    record s {
      paths = put s.paths m (if contains known new_path then known else known ++ new_path ∷ []);
    }

module _ {P : Type 0} where
  abbrev pub empty_of : DMsg P → DMsg P
  empty_of msg = record msg { path = [] }

  -- MD2: the loop that tells each neighbour with an empty path
  unfoldable pub send_empties : (Dolev → Turn P) → Then P → DMsg P → List String → Dolev → Turn P
  send_empties next k msg [] s =
      next (record s { forwarded_empty = add msg.msg_id s.forwarded_empty })
  send_empties next k msg (p ∷ peers) s =
      let rest = send_empties next k msg peers s in
      if contains s.neighbour_ids p
      then (record {
        node = s;
        sends = some (p, empty_of msg);
        upcall = none;
        rest = some (emptying msg k peers);
      })
      else rest

  unfoldable pub empty_forward : (Dolev → Turn P) → Then P → DMsg P → Dolev → Turn P
  unfolding send_empties
  empty_forward next k msg s =
      if contains s.forwarded_empty msg.msg_id
      then next s
      else send_empties next k msg s.peers (note_delivered msg.msg_id s.me s)

  -- what follows the handler of the parent
  unfoldable pub after_parent : (Dolev → Turn P) → Bool → DMsg P → Then P → Dolev → Turn P
  unfolding empty_forward
  after_parent next direct msg k s =
      empty_forward next k msg (if direct then count_forward s else s)

  unfoldable pub tell_parent : (Dolev → Turn P) → Bool → DMsg P → Then P → Dolev → Turn P
  unfolding empty_forward
  tell_parent next direct msg k s =
      if s.has_parent
      then (record {
        node = s;
        sends = none;
        upcall = some msg;
        rest = some (told_parent direct msg k);
      })
      else empty_forward next k msg s

  module _ (nx : Networkx) (now : ℕ) where
    -- The empty messages go out also where the paths do not suffice and nothing is delivered.
    unfoldable pub my_deliver : (Dolev → Turn P) → Then P → Bool → DMsg P → Dolev → Turn P
    unfolding tell_parent dist_paths
    my_deliver next k direct msg s =
        let m = msg.msg_id in
        if contains s.delivered m && contains s.forwarded_empty m
        then next s
        else if direct && not (contains s.delivered m)
        then tell_parent next true msg k
            (stamp_delivery now m (record s { delivered = add m s.delivered }))
        else if not (contains s.delivered m)
        then (if dist_paths nx s.f s.me (get_or s.paths m []) msg.source
            then tell_parent next false msg k (
                stamp_delivery now m
                  (note_delivered m s.me (record s { delivered = add m s.delivered })))
            else empty_forward next k msg s)
        else next s

    unfoldable pub forward : DMsg P → List String → Bool → List String → Dolev → Turn P
    unfolding my_deliver
    forward msg new_path known [] s = my_deliver done finished false msg s
    forward msg new_path known (p ∷ peers) s =
        let rest = forward msg new_path known peers s in
        if contains s.neighbour_ids p
          && not (contains new_path p)
          && not (contains (delivered_neighbours known msg.msg_id s) p)
        then (record {
          node = s;
          sends = some (p, record msg { path = new_path });
          upcall = none;
          rest = some (forwarding msg new_path known peers);
        })
        else rest

    -- the handler behind the MD1 call
    unfoldable pub continue_dolev : String → DMsg P → Dolev → Turn P
    unfolding forward record_path
    continue_dolev src msg s =
        let m = msg.msg_id in
        if (msg.path == []) && not (src == msg.source)
        then done (note_delivered m src s)
        else if contains (get_or s.neighbour_delivered m []) src && contains msg.path src
        then done s
        else (let new_path = msg.path ++ src ∷ [] in
            forward msg new_path (has s.neighbour_delivered m) s.peers (record_path m new_path s))

    unfoldable pub dolev : String → DMsg P → Dolev → Turn P
    unfolding continue_dolev my_deliver
    dolev src msg s₀ =
        let m = msg.msg_id in
        if s₀.behavior_mode == "BYZANTINE_SILENT"
        then done s₀
        else (let s = ensure_neighbours s₀ in
            if not (contains s.neighbour_ids src)
            then done s
            else if contains s.delivered m && contains s.forwarded_empty m
            then done s
            else (let s' = open_metric now m s in
                if src == msg.source && not (contains s'.delivered m)
                then my_deliver (continue_dolev src msg) (rest_of_dolev src msg) true msg s'
                else continue_dolev src msg s'))

    unfoldable pub continue : Then P → Dolev → Turn P
    unfolding continue_dolev
    continue finished s = done s
    continue (rest_of_dolev src msg) s = continue_dolev src msg s

    -- the event loop runs a coroutine on
    unfoldable pub resume : Task P → Dolev → Turn P
    unfolding continue forward after_parent send_empties
    resume (forwarding msg new_path known peers) s =
        forward msg new_path known peers (count_forward s)
    resume (told_parent direct msg k) s = after_parent (continue k) direct msg k s
    resume (emptying msg k peers) s = send_empties (continue k) k msg peers (count_forward s)
