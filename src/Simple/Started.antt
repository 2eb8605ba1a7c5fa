-- ===== src/Simple/Started.antt =====
-- distbench-py/distbench/algorithms/simple_broadcast.py: `on_start` of the node that starts, seen by
-- itself and by a peer.
use distributed_algo.Prelude.{
  ℕ, ◌+◌, String, List, [], ◌∷◌, ◌++◌, true, some, length, contains, IsDistinct, All, Result, ok,
  ◌≡◌, refl, sym, ap, subst, ◌∙◌, arith, eq_string,
}
use mathlib.Core.List.{append-nil, append_assoc}
use distributed_algo.Framework.Messages.{Bytes}
use distributed_algo.Simple.{
  UpperMessage, broadcast_send, broadcast_echo, Upper, Sent, Layers, echo_content, on_delivered,
  broadcast, broadcast_sends, broadcast_own_echo, start, on_start,
}
use distributed_algo.Simple.Received.{
  numbered, counted, after, after_each, delivered_each, after-node_id, after-peers, receive_all,
  receive_all-append, Carries, broadcast-Step,
}

delivered_each-numbered :
    (encode : String → Bytes) (ms : List String) (i : ℕ) (v : Upper)
    → let w = delivered_each (numbered encode i ms) v in
      (w.send_received ≡ v.send_received ++ numbered encode i ms)
      × (w.echo_received ≡ v.echo_received)
unfolding delivered_each numbered on_delivered
delivered_each-numbered encode [] i v = (sym (append-nil _), refl)
delivered_each-numbered encode (m ∷ ms) i v =
    let (sends, echoes) =
      delivered_each-numbered encode ms (i + 1) (on_delivered (broadcast_send (encode m) i) v) in
    (sends ∙ append_assoc v.send_received _ _, echoes)

after_each-numbered :
    (encode : String → Bytes) (ms : List String) (i : ℕ) (u : Upper)
    → let w = after_each (numbered encode i ms) u in
      (w.send_received ≡ u.send_received ++ numbered encode i ms)
      × (w.echo_received ≡ u.echo_received)
      × (w.lower.messages_broadcasted ≡ u.lower.messages_broadcasted + length ms)
      × (w.lower.node_id ≡ u.lower.node_id)
      × (w.lower.peers ≡ u.lower.peers)
unfolding after_each numbered after counted on_delivered
after_each-numbered encode [] i u = (sym (append-nil _), refl, omega arith, refl, refl)
after_each-numbered encode (m ∷ ms) i u =
    let (sends, echoes, count, named, peers) =
      after_each-numbered encode ms (i + 1) (after (broadcast_send (encode m) i) u) in
    (sends ∙ append_assoc u.send_received _ _, echoes, omega (arith, count), named, peers)

module _ (layers : Layers) (p id : String) where
  record Steps (ms : List UpperMessage) (u : Upper) (r : Upper × List Sent) : Type 0 where
    own : r.0 ≡ after_each ms u
    peer : (v : Upper) → receive_all layers p r.1 v ≡ delivered_each ms v

  broadcast_sends-Steps :
      (ms : List String) (i : ℕ) (u : Upper)
      → All (Carries layers p) (numbered layers.encode i ms)
      → u.lower.node_id ≡ some id
      → IsDistinct u.lower.peers
      → contains u.lower.peers p ≡ true
      → Steps (numbered layers.encode i ms) u (broadcast_sends layers i ms u)
  unfolding broadcast_sends numbered
  broadcast_sends-Steps [] i u carries named d member = record {
    own = unfold after_each in refl;
    peer = λ v. unfold receive_all delivered_each in refl;
  }
  broadcast_sends-Steps (m ∷ ms) i u (carries, more) named d member =
      let message = broadcast_send (layers.encode m) i in
      let first = broadcast-Step layers p id message carries u named d member in
      let (u', sent) = broadcast layers (layers.interface message) u in
      let peers' : u'.lower.peers ≡ u.lower.peers =
        ap (λ (x : Upper). x.lower.peers) first.own ∙ after-peers message u in
      let named' : u'.lower.node_id ≡ some id =
        ap (λ (x : Upper). x.lower.node_id) first.own ∙ after-node_id message u ∙ named in
      let rest =
        broadcast_sends-Steps ms (i + 1) u' more named' (subst IsDistinct (sym peers') d)
          (subst (λ ps. contains ps p ≡ true) (sym peers') member) in
      let later = (broadcast_sends layers (i + 1) ms u').1 in
      record {
        own = rest.own ∙ after_first message (numbered layers.encode (i + 1) ms) u u' first.own;
        peer = λ v.
            receive_all-append layers p sent later v
            ∙ rest.peer (receive_all layers p sent v)
            ∙ delivered_first message (numbered layers.encode (i + 1) ms) v _ (first.peer v);
      }
    where
      after_first :
          (x : UpperMessage) (xs : List UpperMessage) (a b : Upper)
          → b ≡ after x a
          → after_each xs b ≡ after_each (x ∷ xs) a
      after_first x xs a b e = unfold after_each in ap (λ (w : Upper). after_each xs w) e

      delivered_first :
          (x : UpperMessage) (xs : List UpperMessage) (a b : Upper)
          → b ≡ on_delivered x a
          → delivered_each xs b ≡ delivered_each (x ∷ xs) a
      delivered_first x xs a b e =
          unfold delivered_each in ap (λ (w : Upper). delivered_each xs w) e

  -- What a start leaves: the messages that were sent, and with a peer and with the node itself, behind
  -- what was there, each of the node's messages with its number in order, and one echo with its name.
  pub record Started (u v : Upper) (out : Upper × Result (List Sent)) : Type 0 where
    pub sent : List Sent
    pub returns : out.1 ≡ ok sent
    pub peer_sends :
        (receive_all layers p sent v).send_received
        ≡ v.send_received ++ numbered layers.encode 0 u.messages
    pub peer_echoes :
        (receive_all layers p sent v).echo_received
        ≡ v.echo_received ++ broadcast_echo (echo_content layers.encode) id ∷ []
    pub own_sends : out.0.send_received ≡ u.send_received ++ numbered layers.encode 0 u.messages
    pub own_echoes :
        out.0.echo_received ≡ u.echo_received ++ broadcast_echo (echo_content layers.encode) id ∷ []
    pub count :
        out.0.lower.messages_broadcasted ≡ u.lower.messages_broadcasted + length u.messages + 1

  started_lem :
      (u : Upper)
      → u.start_node ≡ true
      → u.lower.node_id ≡ some id
      → let (u', sent) = broadcast_sends layers 0 u.messages u in
        let (u'', later) =
          broadcast layers (layers.interface (broadcast_echo (echo_content layers.encode) id)) u' in
        on_start layers u ≡ (u'', ok (sent ++ later))
  unfolding on_start start broadcast_own_echo
  started_lem u starts named = rw (starts, named) refl

  echo_received_own :
      (u v : Upper) (e : v ≡ after (broadcast_echo (echo_content layers.encode) id) u)
      → (v.send_received ≡ u.send_received)
        × (v.echo_received ≡ u.echo_received ++ broadcast_echo (echo_content layers.encode) id ∷ [])
        × (v.lower.messages_broadcasted ≡ u.lower.messages_broadcasted + 1)
  unfolding after counted on_delivered
  echo_received_own u v e = (
    ap (λ (x : Upper). x.send_received) e,
    ap (λ (x : Upper). x.echo_received) e,
    ap (λ (x : Upper). x.lower.messages_broadcasted) e,
  )

  echo_received_peer :
      (u v : Upper) (e : v ≡ on_delivered (broadcast_echo (echo_content layers.encode) id) u)
      → (v.send_received ≡ u.send_received)
        × (v.echo_received ≡ u.echo_received ++ broadcast_echo (echo_content layers.encode) id ∷ [])
  unfolding on_delivered
  echo_received_peer u v e =
      (ap (λ (x : Upper). x.send_received) e, ap (λ (x : Upper). x.echo_received) e)

  -- Where the framework carries these messages and the echo between the layers, a node that is to start, has its id
  -- and has a peer among its distinct peers, sends in `on_start` what makes this peer, whatever its
  -- state, receive each of the node's messages once and in order, and then the echo; the node itself
  -- receives the same, and counts each broadcast.
  pub on_start-Started :
      (u v : Upper)
      → u.start_node ≡ true
      → u.lower.node_id ≡ some id
      → IsDistinct u.lower.peers
      → contains u.lower.peers p ≡ true
      → All (Carries layers p) (numbered layers.encode 0 u.messages)
      → Carries layers p (broadcast_echo (echo_content layers.encode) id)
      → Started u v (on_start layers u)
  on_start-Started u v starts named d member carries carries_echo =
      let echo = broadcast_echo (echo_content layers.encode) id in
      let sends = numbered layers.encode 0 u.messages in
      let (u', sent) = broadcast_sends layers 0 u.messages u in
      let steps = broadcast_sends-Steps u.messages 0 u carries named d member in
      let (own_sends, own_echoes, count, same_id, same_peers) =
        after_each-numbered layers.encode u.messages 0 u in
      let named' : u'.lower.node_id ≡ some id =
        ap (λ (x : Upper). x.lower.node_id) steps.own ∙ same_id ∙ named in
      let peers' : u'.lower.peers ≡ u.lower.peers =
        ap (λ (x : Upper). x.lower.peers) steps.own ∙ same_peers in
      let last =
        broadcast-Step layers p id echo carries_echo u' named' (subst IsDistinct (sym peers') d)
          (subst (λ ps. contains ps p ≡ true) (sym peers') member) in
      let (u'', later) = broadcast layers (layers.interface echo) u' in
      let (kept_sends, new_echoes, counted_echo) = echo_received_own u' u'' last.own in
      let before = receive_all layers p sent v in
      let (peer_sends, peer_echoes) = delivered_each-numbered layers.encode u.messages 0 v in
      let (peer_kept, peer_new) =
        echo_received_peer before (receive_all layers p (sent ++ later) v)
          (receive_all-append layers p sent later v ∙ last.peer before) in
      subst (Started u v) (sym (started_lem u starts named)) (record {
        sent = sent ++ later;
        returns = refl;
        peer_sends = peer_kept ∙ ap (λ (x : Upper). x.send_received) (steps.peer v) ∙ peer_sends;
        peer_echoes =
            peer_new
            ∙ ap (λ (x : Upper). x.echo_received ++ echo ∷ []) (steps.peer v)
            ∙ ap (λ (xs : List UpperMessage). xs ++ echo ∷ []) peer_echoes;
        own_sends = kept_sends ∙ ap (λ (x : Upper). x.send_received) steps.own ∙ own_sends;
        own_echoes =
            new_echoes
            ∙ ap (λ (x : Upper). x.echo_received ++ echo ∷ []) steps.own
            ∙ ap (λ (xs : List UpperMessage). xs ++ echo ∷ []) own_echoes;
        count =
            counted_echo
            ∙ ap (λ (x : Upper). x.lower.messages_broadcasted + 1) steps.own
            ∙ ap (λ (n : ℕ). n + 1) count;
      })
