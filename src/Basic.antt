-- ===== src/Basic.antt =====
-- distbench-py/distbench/algorithms/bracha_basic.py: Bracha's broadcast with direct calls of the
-- peers, on the same ledger. A broadcast awaits a call of each peer, so it is a `Task`.
pub mod Quorum
use distributed_algo.Prelude.{
  ℕ, ◌+◌, String, List, [], ◌∷◌, Bool, true, false, not, ◌&&◌, Option, none, some, eq_string, index,
  contains, add, length, leb, if◌then◌else◌, Result, ok, ◌>>=◌,
}
use distributed_algo.Bracha.Message.{BrachaMessage, echo_quorum, ready_quorum}
use distributed_algo.Bracha.Ledger.{
  Ledger, empty_ledger, init_state, add_echo, add_ready, mark_echo, mark_ready, mark_delivered,
}

pub record Bracha : Type 0 where
  -- `str(self.id())`, and the peers in the order of the dictionary
  pub id : String
  pub peers : List String
  pub is_sender : Bool
  pub f : ℕ
  pub total : ℕ
  pub seen_messages : List String
  pub ledger : Ledger
  pub ready_threshold : ℕ
  pub deliver_threshold : ℕ

unfoldable pub init : String → List String → Bool → ℕ → Bracha
init id peers is_sender f = record {
  id = id;
  peers = peers;
  is_sender = is_sender;
  f = f;
  total = length peers + 1;
  seen_messages = [];
  ledger = empty_ledger;
  ready_threshold = echo_quorum (length peers + 1) f;
  deliver_threshold = ready_quorum f;
}

-- What follows a broadcast: nothing, the own echo of the sender, the delivery check of `ready`.
pub data Then : Type 0 where
  done : Then
  own_echo : Then
  delivery : Then

-- a broadcast that waits for the call of a peer
pub record Task : Type 0 where
  pub method : String
  pub message : BrachaMessage
  pub peers : List String
  pub next : Then

-- One turn: the state, the call of a peer with its method, the line "BRACHA DELIVERED", the rest.
pub record Turn : Type 0 where
  pub node : Bracha
  pub call : Option (String × String × BrachaMessage)
  pub delivers : Option BrachaMessage
  pub rest : Option Task

abbrev pub quiet : Bracha → Turn
quiet s = record { node = s; call = none; delivers = none; rest = none }

abbrev pub with_phase : String → BrachaMessage → BrachaMessage
with_phase phase msg = record msg { phase = phase }

-- the second half of `ready`
unfoldable pub deliver : BrachaMessage → Bracha → Result Turn
deliver msg s = do
  before ← index s.ledger.delivered msg.msg_id
  voters ← index s.ledger.readys msg.msg_id
  if not before && leb s.deliver_threshold (length voters)
      then ok (record {
        node = record s { ledger = mark_delivered msg.msg_id s.ledger };
        call = none;
        delivers = some msg;
        rest = none;
      })
      else ok (quiet s)

-- `bracha` up to the call of the next peer; without one, what is given for its end
unfoldable pub broadcast :
    String → BrachaMessage → Then → (Bracha → Result Turn) → List String → Bracha → Result Turn
broadcast method msg next end [] s = end s
broadcast method msg next end (p ∷ peers) s = ok (record {
  node = s;
  call = some (p, method, msg);
  delivers = none;
  rest = some (record { method = method; message = msg; peers = peers; next = next });
})

abbrev pub stop : Bracha → Result Turn
stop s = ok (quiet s)

unfoldable pub finish : Then → BrachaMessage → Bracha → Result Turn
unfolding broadcast deliver
finish done msg s = stop s
finish own_echo msg s =
    let m = msg.msg_id in
    broadcast "echo" (with_phase "echo" msg) done stop s.peers
      (record s { seen_messages = add m s.seen_messages; ledger = mark_echo m s.ledger })
finish delivery msg s = deliver msg s

unfoldable pub bracha : String → BrachaMessage → Then → Bracha → Result Turn
unfolding broadcast finish
bracha method msg next s = broadcast method msg next (finish next msg) s.peers s

unfoldable pub resume : Task → Bracha → Result Turn
unfolding broadcast finish
resume k s = broadcast k.method k.message k.next (finish k.next k.message) k.peers s

unfoldable pub on_start : (uuid : String) → (greeting : String) → Bracha → Result Turn
unfolding bracha
on_start uuid greeting s =
    if s.is_sender
    then bracha "send" (record { phase = "send"; sender = s.id; msg_id = uuid; payload = greeting })
        own_echo (record s { ledger = init_state uuid s.ledger })
    else stop s

unfoldable pub send : BrachaMessage → Bracha → Result Turn
unfolding bracha
send msg s =
    let m = msg.msg_id in
    let l = init_state m s.ledger in
    if contains s.seen_messages m
    then stop (record s { ledger = l })
    else bracha "echo" (with_phase "echo" msg) done
        (record s { seen_messages = add m s.seen_messages; ledger = mark_echo m l })

unfoldable pub echo : String → BrachaMessage → Bracha → Result Turn
unfolding bracha
echo src msg s =
    let m = msg.msg_id in
    do
      l ← add_echo m src (init_state m s.ledger)
      sent ← index l.sent_ready m
      voters ← index l.echos m
      if not sent && leb s.ready_threshold (length voters)
          then bracha "ready" (with_phase "ready" msg) done (record s { ledger = mark_ready m l })
          else stop (record s { ledger = l })

-- the READY, if it was decided on, and the delivery
unfoldable pub send_ready : Bool → BrachaMessage → Bracha → Result Turn
unfolding bracha deliver
send_ready true msg s =
    bracha "ready" msg delivery (record s { ledger = mark_ready msg.msg_id s.ledger })
send_ready false msg s = deliver msg s

unfoldable pub ready : String → BrachaMessage → Bracha → Result Turn
unfolding send_ready
ready src msg s =
    let m = msg.msg_id in
    do
      l ← add_ready m src (init_state m s.ledger)
      sent ← index l.sent_ready m
      voters ← index l.readys m
      send_ready (not sent && leb (s.f + 1) (length voters)) msg (record s { ledger = l })
