-- ===== src/Simple/Received.antt =====
-- distbench-py/distbench/algorithms/simple_broadcast.py: what a start of the algorithm leaves with
-- the node that starts and with its peers.
use distributed_algo.Prelude.{
  ℕ, ◌+◌, String, List, [], ◌∷◌, ◌++◌, Bool, true, false, some, contains, IsDistinct, ok, ◌≡◌, refl,
  sym, ap, subst, ◌∙◌, arith, ◌==◌, eq_string, if◌then◌else◌, if-cases, if-true, Bool-cases, inl,
  inr,
}
use distributed_algo.Framework.Messages.{Bytes}
use distributed_algo.Simple.{
  UpperMessage, broadcast_send, broadcast_echo, Upper, Sent, Layers, on_delivered, deliver_caught,
  send_each, receive, deliver_own, broadcast_bytes, broadcast,
}

-- the messages that a start broadcasts in front of the echo
unfoldable pub numbered : (String → Bytes) → ℕ → List String → List UpperMessage
numbered encode i [] = []
numbered encode i (m ∷ ms) = broadcast_send (encode m) i ∷ numbered encode (i + 1) ms

unfoldable pub counted : Upper → Upper
counted u = record u {
  lower = record (u.lower) { messages_broadcasted = u.lower.messages_broadcasted + 1 };
}

-- what one broadcast leaves with its own node
unfoldable pub after : UpperMessage → Upper → Upper
unfolding counted on_delivered
after m u = on_delivered m (counted u)

unfoldable pub after_each : List UpperMessage → Upper → Upper
after_each [] u = u
after_each (m ∷ ms) u = after_each ms (after m u)

unfoldable pub delivered_each : List UpperMessage → Upper → Upper
unfolding on_delivered
delivered_each [] u = u
delivered_each (m ∷ ms) u = delivered_each ms (on_delivered m u)

pub after-node_id : (m : UpperMessage) (u : Upper) → (after m u).lower.node_id ≡ u.lower.node_id
unfolding after
after-node_id (broadcast_send c i) u = refl
after-node_id (broadcast_echo c s) u = refl

pub after-peers : (m : UpperMessage) (u : Upper) → (after m u).lower.peers ≡ u.lower.peers
unfolding after
after-peers (broadcast_send c i) u = refl
after-peers (broadcast_echo c s) u = refl

module _ (layers : Layers) where
  -- what a peer makes of the messages to it, in the order of the sends
  unfoldable pub receive_all : String → List Sent → Upper → Upper
  unfolding receive
  receive_all p [] v = v
  receive_all p (s ∷ ss) v =
      receive_all p ss (if s.peer == p then receive layers s.payload v else v)

  pub receive_all-append :
      (p : String) (xs ys : List Sent) (v : Upper)
      → receive_all p (xs ++ ys) v ≡ receive_all p ys (receive_all p xs v)
  unfolding receive_all
  receive_all-append p [] ys v = refl
  receive_all-append p (x ∷ xs) ys v = receive_all-append p xs ys _

  receive_other :
      (p q : String) (payload : Bytes) (ss : List Sent) (v : Upper)
      → (q == p) ≡ false
      → receive_all p (record { peer = q; payload = payload } ∷ ss) v ≡ receive_all p ss v
  unfolding receive_all
  receive_other p q payload ss v other =
      ap (λ (b : Bool). receive_all p ss (if b then receive layers payload v else v)) other

  receive_own :
      (p q : String) (payload : Bytes) (ss : List Sent) (v : Upper)
      → (q == p) ≡ true
      → receive_all p (record { peer = q; payload = payload } ∷ ss) v
        ≡ receive_all p ss (receive layers payload v)
  unfolding receive_all
  receive_own p q payload ss v same =
      ap (λ (b : Bool). receive_all p ss (if b then receive layers payload v else v)) same

  receive_all_absent :
      (p : String) (payload : Bytes) (ps : List String) (v : Upper)
      → contains ps p ≡ false
      → receive_all p (send_each layers.arrives payload ps) v ≡ v
  unfolding send_each contains
  receive_all_absent p payload [] v h = unfold receive_all in refl
  receive_all_absent p payload (q ∷ ps) v h =
      if-cases (λ (ss : List Sent). receive_all p ss v ≡ v) (layers.arrives q payload)
        (λ arrives.
          receive_other p q payload (send_each layers.arrives payload ps) v (ground arith)
          ∙ receive_all_absent p payload ps v (ground arith))
        (λ lost. receive_all_absent p payload ps v (ground arith))

  receive_all_each :
      (p : String) (payload : Bytes) (ps : List String) (v : Upper)
      → IsDistinct ps
      → contains ps p ≡ true
      → layers.arrives p payload ≡ true
      → receive_all p (send_each layers.arrives payload ps) v ≡ receive layers payload v
  unfolding send_each contains IsDistinct
  receive_all_each p payload [] v d h reaches = absurd (ground arith)
  receive_all_each p payload (q ∷ ps) v (fresh, d) h reaches = elim (Bool-cases (q == p)) [
    | inl same ↦
        ap (λ (ss : List Sent). receive_all p ss v)
          (if-true {b = layers.arrives q payload} _ _ (
            ap (λ (r : String). layers.arrives r payload) ((eq_string.sound q p).0 same) ∙ reaches))
        ∙ receive_own p q payload (send_each layers.arrives payload ps) v same
        ∙ receive_all_absent p payload ps _
            (subst (λ r. contains ps r ≡ false) ((eq_string.sound q p).0 same) fresh)
    | inr other ↦
        if-cases (λ (ss : List Sent). receive_all p ss v ≡ receive layers payload v)
          (layers.arrives q payload)
          (λ arrives.
            receive_other p q payload (send_each layers.arrives payload ps) v other
            ∙ receive_all_each p payload ps v d (ground arith) reaches)
          (λ lost. receive_all_each p payload ps v d (ground arith) reaches)
  ]

  -- The framework carries a message from one layer to the other, and the layer below carries it to `p`.
  pub record Carries (p : String) (m : UpperMessage) : Type 0 where
    pub bytes : Bytes
    pub wrapped : layers.interface m ≡ ok bytes
    pub delivered : layers.deliver bytes ≡ ok (some m)
    pub arrives : layers.arrives p bytes ≡ true

  receive_lem :
      (p : String) (m : UpperMessage) (c : Carries p m) (v : Upper)
      → receive layers c.bytes v ≡ on_delivered m v
  unfolding receive deliver_caught
  receive_lem p m c v = rw c.delivered refl

  broadcast_lem :
      (p : String) (m : UpperMessage) (c : Carries p m) (id : String) (u : Upper)
      → u.lower.node_id ≡ some id
      → broadcast layers (layers.interface m) u
        ≡ (after m u, send_each layers.arrives c.bytes u.lower.peers)
  unfolding broadcast broadcast_bytes deliver_own receive deliver_caught after counted
  broadcast_lem p m c id u named = rw (c.wrapped, named, c.delivered) refl

  -- one broadcast: the state of its node, and what a peer makes of it
  pub record Step (p : String) (m : UpperMessage) (u : Upper) (r : Upper × List Sent) : Type 0 where
    pub own : r.0 ≡ after m u
    pub peer : (v : Upper) → receive_all p r.1 v ≡ on_delivered m v

  pub broadcast-Step :
      (p id : String) (m : UpperMessage) (c : Carries p m) (u : Upper)
      → u.lower.node_id ≡ some id
      → IsDistinct u.lower.peers
      → contains u.lower.peers p ≡ true
      → Step p m u (broadcast layers (layers.interface m) u)
  broadcast-Step p id m c u named d member =
      subst (Step p m u) (sym (broadcast_lem p m c id u named)) (record {
        own = refl;
        peer = λ v.
            receive_all_each p c.bytes u.lower.peers v d member c.arrives ∙ receive_lem p m c v;
      })
