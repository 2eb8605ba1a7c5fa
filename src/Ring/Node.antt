-- ===== src/Ring/Node.antt =====
-- distbench-py/distbench/algorithms/chang_roberts.py: a node and its handlers. An error of a call of
-- a peer is logged, so the call is a message; behind it the coroutine has a `Task`.
use distributed_algo.Prelude.{
  ℕ, ◌+◌, ◌%◌, String, List, [], ◌∷◌, ◌++◌, Bool, true, false, Option, none, some, eq_string,
  nat_eqb, ltb, contains, length, get_elem?, sorted, index_of, if◌then◌else◌, Result, ok, raises,
  key_error, index_error, ◌>>=◌,
}

pub data Message : Type 0 where
  election : (elector : ℕ) → Message
  termination : (leader : ℕ) → Message

pub record ChangRoberts : Type 0 where
  -- `self.id()`, and `self.peers.keys()`
  pub id : String
  pub peers : List String
  pub node_id : ℕ
  pub leader : Option ℕ
  pub next_peer_tuple : Option String
  pub terminated : Bool

unfoldable pub init : String → List String → ℕ → ChangRoberts
init id peers node_id = record {
  id = id;
  peers = peers;
  node_id = node_id;
  leader = none;
  next_peer_tuple = none;
  terminated = false;
}

abbrev pub element : Option String → Result String
element none = raises index_error
element (some p) = ok p

-- the next id in the sorted ring, which has to be a peer
unfoldable pub find_next : String → List String → Result String
find_next id peers =
    let all_ids = sorted (peers ++ id ∷ []) in
    do
      my_index ← index_of all_ids id
      next_peer ← element (get_elem? all_ids ((my_index + 1) % length all_ids))
      if contains peers next_peer then ok next_peer else raises key_error

-- the peer found before, or found now
unfoldable pub cached : Option String → ChangRoberts → Result (String × ChangRoberts)
unfolding find_next
cached (some p) s = ok (p, s)
cached none s = do p ← find_next s.id s.peers; ok (p, record s { next_peer_tuple = some p })

unfoldable pub get_next_peer_tuple : ChangRoberts → Result (String × ChangRoberts)
unfolding cached
get_next_peer_tuple s = cached s.next_peer_tuple s

-- the start behind its sleep, and `terminate` behind the call of a peer
pub data Task : Type 0 where
  start_election : String → Task
  finish : Task

pub record Turn : Type 0 where
  pub node : ChangRoberts
  pub out : List (String × Message)
  pub rest : Option Task

unfoldable pub on_start : ChangRoberts → Result Turn
unfolding get_next_peer_tuple
on_start s = do
  (p, s') ← get_next_peer_tuple s
  ok (record { node = s'; out = []; rest = some (start_election p) })

unfoldable pub elect_with : ℕ → String → ChangRoberts → Turn
elect_with elector p s =
    if nat_eqb elector s.node_id
    then (record {
      node = record s { leader = some s.node_id };
      out = (p, termination s.node_id) ∷ [];
      rest = some finish;
    })
    else if ltb s.node_id elector
    then (record { node = s; out = (p, election elector) ∷ []; rest = none })
    else (record { node = s; out = (p, election s.node_id) ∷ []; rest = none })

unfoldable pub on_election : ℕ → ChangRoberts → Result Turn
unfolding get_next_peer_tuple elect_with
on_election elector s = do (p, s') ← get_next_peer_tuple s; ok (elect_with elector p s')

unfoldable pub follow : ℕ → String → ChangRoberts → Turn
follow leader p s =
    if nat_eqb leader s.node_id
    then (record {
      node = record s { leader = some leader; terminated = true };
      out = [];
      rest = none;
    })
    else (record {
      node = record s { leader = some leader };
      out = (p, termination leader) ∷ [];
      rest = some finish;
    })

-- a node that knows its leader ignores the message
unfoldable pub terminate_from : Option ℕ → ℕ → ChangRoberts → Result Turn
unfolding get_next_peer_tuple follow
terminate_from (some l) leader s = ok (record { node = s; out = []; rest = none })
terminate_from none leader s = do (p, s') ← get_next_peer_tuple s; ok (follow leader p s')

unfoldable pub on_termination : ℕ → ChangRoberts → Result Turn
unfolding terminate_from
on_termination leader s = terminate_from s.leader leader s

unfoldable pub receive : Message → ChangRoberts → Result Turn
unfolding on_election on_termination
receive (election v) s = on_election v s
receive (termination l) s = on_termination l s

unfoldable pub begin_from : Option ℕ → String → ChangRoberts → Turn
begin_from (some l) p s = record { node = s; out = []; rest = none }
begin_from none p s = record { node = s; out = (p, election s.node_id) ∷ []; rest = none }

unfoldable pub resume : Task → ChangRoberts → Turn
unfolding begin_from
resume (start_election p) s = begin_from s.leader p s
resume finish s = record { node = record s { terminated = true }; out = []; rest = none }
