-- ===== src/Dolev/Broadcast.antt =====
-- distbench-py/distbench/algorithms/dolev.py: the broadcasts of own messages, `yes_daddy_bracha`,
-- `broadcast_message` and `trigger_byzantine_spoof`. Each is a loop over the peers that awaits a
-- call of a peer, so it is a chain of turns; `uuid.uuid4()` and `time.time()` are arguments.
use distributed_algo.Prelude.{
  ℕ, zero, suc, ◌+◌, ap, ◌++◌, ◌/◌, String, List, [], ◌∷◌, Bool, true, not, Option, none, some,
  eq_string, ◌==◌, contains, add, put, length, length-take, length-sorted, contains-add, sorted,
  take, keep, ◌≡◌, refl, arith, inl, inr, Bool-cases, if-cases, if◌then◌else◌,
}
use distributed_algo.Dolev.State.{DMsg, Dolev, ensure_neighbours, stamp_delivery, count_parent}

take_prefix : (n : ℕ) (xs : List String) → (ys : List String) × (take n xs ++ ys ≡ xs)
take_prefix zero xs = (xs, refl)
take_prefix (suc n) [] = ([], refl)
take_prefix (suc n) (x ∷ xs) =
    let (ys, e) = take_prefix n xs in (ys, ap (λ (zs : List String). x ∷ zs) e)

-- the first half of a list in order, rounded down
abbrev pub IsFirstHalf : List String → List String → Type 0
IsFirstHalf ts xs =
    (length ts ≡ length xs / 2) × ((later : List String) × (ts ++ later ≡ sorted xs))

-- the three loops, which count differently
pub data Kind : Type 0 where
  for_bracha own_message spoofed : Kind

-- what follows the call of a peer
unfoldable pub count_sent : Kind → Dolev → Dolev
unfolding count_parent
count_sent for_bracha s = count_parent s
count_sent own_message s =
    count_parent (record s { total_messages_sent = s.total_messages_sent + 1 })
count_sent spoofed s = s

-- A broadcast that waits for the call of a peer: its message, its targets, the peers to come.
pub record Broadcast (P : Type 0) : Type 0 where
  pub kind : Kind
  pub message : DMsg P
  pub targets : Option (List String)
  pub peers : List String

pub record Round (P : Type 0) : Type 0 where
  pub node : Dolev
  pub sends : Option (String × DMsg P)
  pub rest : Option (Broadcast P)

abbrev pub halted : {P : Type 0} → Dolev → Round P
halted s = record { node = s; sends = none; rest = none }

-- The targets are fixed at the start of a selective broadcast; else they are the neighbours.
abbrev pub reached : Option (List String) → List String → List String
reached none neighbours = neighbours
reached (some ts) neighbours = ts

abbrev pub is_selective : Dolev → Bool
is_selective s = s.behavior_mode == "BYZANTINE_SELECTIVE"

-- `sorted(list(self.neighbour_ids))[:len(self.neighbour_ids) // 2]`
unfoldable pub targets_of : Dolev → Option (List String)
targets_of s =
    if is_selective s
    then some (take (length s.neighbour_ids / 2) (sorted s.neighbour_ids))
    else none

unfoldable pub start_metric : ℕ → String → Dolev → Dolev
start_metric now m s = record s {
  message_metrics =
      put s.message_metrics m (record { broadcast_time = some now; delivery_time = none });
}

unfoldable pub deliver_local : ℕ → String → Dolev → Dolev
unfolding stamp_delivery
deliver_local now m s =
    if contains s.delivered m
    then s
    else stamp_delivery now m (record s { delivered = add m s.delivered })

module _ {P : Type 0} where
  unfoldable pub send_each : Kind → DMsg P → Option (List String) → List String → Dolev → Round P
  send_each kind msg targets [] s = halted s
  send_each kind msg targets (p ∷ peers) s =
      let rest = send_each kind msg targets peers s in
      if contains (reached targets s.neighbour_ids) p
      then (record {
        node = s;
        sends = some (p, msg);
        rest = some (record { kind = kind; message = msg; targets = targets; peers = peers });
      })
      else rest

  unfoldable pub continue_broadcast : Broadcast P → Dolev → Round P
  unfolding send_each count_sent
  continue_broadcast b s = send_each b.kind b.message b.targets b.peers (count_sent b.kind s)

  -- A message of the parent goes out under an id that names its phase and this node.
  unfoldable pub yes_daddy_bracha : (dolev_msg_id : String) → P → Dolev → Round P
  unfolding send_each ensure_neighbours
  yes_daddy_bracha dolev_msg_id bracha_msg s =
      let msg : DMsg P = record {
        msg_id = dolev_msg_id;
        source = s.me;
        payload = bracha_msg;
        path = [];
      } in
      send_each for_bracha msg none s.peers (ensure_neighbours s)

  -- The origin delivers to itself. A selective node sends to the first half of its neighbours.
  unfoldable pub broadcast_message : ℕ → (uuid : String) → (payload : P) → Dolev → Round P
  unfolding send_each start_metric deliver_local targets_of
  broadcast_message now uuid payload s =
      let msg : DMsg P = record { msg_id = uuid; source = s.me; payload = payload; path = [] } in
      let s' = deliver_local now uuid (start_metric now uuid s) in
      send_each own_message msg (targets_of s') s'.peers s'

  -- Under this mode a node claims that its first peer has sent a message.
  unfoldable pub trigger_byzantine_spoof : (uuid : String) → (payload : P) → Dolev → Round P
  unfolding send_each
  trigger_byzantine_spoof uuid payload s =
      if not (s.behavior_mode == "BYZANTINE_SPOOF") then halted s else (elim s.peers [
        | [] ↦ halted s
        | p ∷ peers ↦ elim s.neighbour_ids [
          | [] ↦ halted s
          | n ∷ ns ↦
              send_each spoofed (record { msg_id = uuid; source = p; payload = payload; path = [] })
                none (p ∷ peers) s
        ]
      ])

  -- The peers that a broadcast has still to call, in the state `s`.
  abbrev pub still : List String → Option (Broadcast P) → List String
  still ts none = []
  still ts (some b) = keep (contains ts) b.peers

  -- A turn of a broadcast calls the first of the peers that it has to reach, with the message, and
  -- leaves the others, in order; it ends when there is none.
  abbrev pub Calls : Dolev → DMsg P → List String → List String → Round P → Type 0
  Calls s msg ts [] r = (r.sends ≡ none) × (r.rest ≡ none) × (r.node ≡ s)
  Calls s msg ts (p ∷ later) r =
      (r.sends ≡ some (p, msg)) × (still ts r.rest ≡ later) × (r.node ≡ s)

  send_each-Calls :
      (kind : Kind) (msg : DMsg P) (targets : Option (List String)) (peers : List String)
      (s : Dolev)
      → Calls s msg
          (reached targets s.neighbour_ids)
          (keep (contains (reached targets s.neighbour_ids)) peers)
          (send_each kind msg targets peers s)
  unfolding send_each
  send_each-Calls kind msg targets [] s = (refl, refl, refl)
  send_each-Calls kind msg targets (p ∷ peers) s =
      elim (Bool-cases (contains (reached targets s.neighbour_ids) p)) [
        | inl h ↦ rw h (refl, refl, refl)
        | inr h ↦ rw h (send_each-Calls kind msg targets peers s)
      ]

  pub broadcast_message-Calls :
      (now : ℕ) (uuid : String) (payload : P) (s : Dolev)
      → let msg : DMsg P = record { msg_id = uuid; source = s.me; payload = payload; path = [] } in
        let s' = deliver_local now uuid (start_metric now uuid s) in
        let ts = reached (targets_of s) s.neighbour_ids in
        Calls s' msg ts (keep (contains ts) s.peers) (broadcast_message now uuid payload s)
        × (contains s'.delivered uuid ≡ true)
        × (if is_selective s then IsFirstHalf ts s.neighbour_ids else (ts ≡ s.neighbour_ids))
  unfolding broadcast_message deliver_local start_metric targets_of stamp_delivery
  broadcast_message-Calls now uuid payload s =
      let msg : DMsg P = record { msg_id = uuid; source = s.me; payload = payload; path = [] } in
      let ts = reached (targets_of s) s.neighbour_ids in
      (
        if-cases
            (λ s'.
              Calls s' msg ts (keep (contains ts) s.peers)
                (send_each own_message msg (targets_of s') s'.peers s'))
            (contains s.delivered uuid)
            (λ h. send_each-Calls own_message msg (targets_of s) s.peers (start_metric now uuid s))
            (λ h. send_each-Calls own_message msg (targets_of s) s.peers (
              stamp_delivery now uuid
                (record (start_metric now uuid s) { delivered = add uuid s.delivered }))),
        if-cases (λ (s' : Dolev). contains s'.delivered uuid ≡ true) (contains s.delivered uuid)
            (λ h. h)
            (λ h. ground (arith, contains-add uuid uuid s.delivered, eq_string.sound uuid uuid)),
        elim (Bool-cases (is_selective s)) [
          | inl h ↦ rw h (
            length-take (length s.neighbour_ids / 2) (sorted s.neighbour_ids)
                (omega (arith, length-sorted s.neighbour_ids)),
            take_prefix (length s.neighbour_ids / 2) (sorted s.neighbour_ids),
          )
          | inr h ↦ rw h refl
        ],
      )
