-- ===== src/Dolev/Empties.antt =====
-- dolev.py, `my_deliver`: the empty messages of MD2 go out although nothing was delivered.
use distributed_algo.Prelude.{
  ℕ, String, List, [], ◌∷◌, true, false, ◌≡◌, refl, ◌∙◌, sym, subst, ap, none, some, eq_string,
  contains, add, contains-add, get_or, keep, map, Bool-cases, inl, inr, arith,
}
use distributed_algo.Dolev.State.{DMsg, Dolev, note_delivered, count_forward, count_parent}
use distributed_algo.Dolev.Graph.{Networkx, dist_paths}
use distributed_algo.Dolev.Handlers.{
  Task, Turn, finished, emptying, done, empty_of, send_empties, empty_forward, my_deliver, continue,
  resume,
}

count_forward_lem :
    (s : Dolev)
    → ((count_forward s).neighbour_ids ≡ s.neighbour_ids)
      × ((count_forward s).delivered ≡ s.delivered)
unfolding count_forward count_parent
count_forward_lem s = ground arith

module _ {P : Type 0} (nx : Networkx) (now : ℕ) where
  -- A coroutine that runs to its end, undisturbed and without a call of the parent: what it sends, in
  -- order, and the state that it leaves.
  pub data Ends : Turn P → List (String × DMsg P) → Dolev → Type 0 where
    stops : (s : Dolev) → Ends (done s) [] s
    goes_on :
        {s s' : Dolev} {p : String} {m : DMsg P} {k : Task P} {sent : List (String × DMsg P)}
        → Ends (resume nx now k s) sent s'
        → Ends
            (record { node = s; sends = some (p, m); upcall = none; rest = some k })
            ((p, m) ∷ sent)
            s'

  -- the empty message for each of the peers that are neighbours
  abbrev pub empties : DMsg P → List String → List String → List (String × DMsg P)
  empties msg neighbours peers = map (λ p. (p, empty_of msg)) (keep (contains neighbours) peers)

  ended : (next : Dolev → Turn P) (s : Dolev) → next s ≡ done s → Ends (next s) [] s
  ended next s e = subst (λ (t : Turn P). Ends t [] s) (sym e) (stops s)

  resent :
      {t : Turn P} {sent sent' : List (String × DMsg P)} {s : Dolev}
      → sent ≡ sent'
      → Ends t sent s
      → Ends t sent' s
  resent {t} {s = s} e ends = subst (λ (ms : List (String × DMsg P)). Ends t ms s) e ends

  -- What the empty messages leave: each is sent, nothing more is delivered, and they are announced.
  pub record Announced (msg : DMsg P) (peers : List String) (s : Dolev) (t : Turn P) : Type 0 where
    pub last : Dolev
    pub ends : Ends t (empties msg s.neighbour_ids peers) last
    pub same : last.delivered ≡ s.delivered
    pub announced : contains last.forwarded_empty msg.msg_id ≡ true

  empties_near :
      (msg : DMsg P) (neighbours peers : List String) (p : String)
      → contains neighbours p ≡ true
      → empties msg neighbours (p ∷ peers) ≡ (p, empty_of msg) ∷ empties msg neighbours peers
  empties_near msg neighbours peers p near = rw near refl

  empties_far :
      (msg : DMsg P) (neighbours peers : List String) (p : String)
      → contains neighbours p ≡ false
      → empties msg neighbours (p ∷ peers) ≡ empties msg neighbours peers
  empties_far msg neighbours peers p far = rw far refl

  send_empties-Announced :
      (next : Dolev → Turn P) (msg : DMsg P) (peers : List String) (s : Dolev)
      → ((s : Dolev) → next s ≡ done s)
      → Announced msg peers s (send_empties next finished msg peers s)
  unfolding send_empties resume
  send_empties-Announced next msg [] s at_end = record {
    last = record s { forwarded_empty = add msg.msg_id s.forwarded_empty };
    ends = ended next (record s { forwarded_empty = add msg.msg_id s.forwarded_empty }) (at_end _);
    same = refl;
    announced =
        contains-add msg.msg_id msg.msg_id s.forwarded_empty
        ∙ ground (arith, eq_string.sound msg.msg_id msg.msg_id);
  }
  send_empties-Announced next msg (p ∷ peers) s at_end =
      elim (Bool-cases (contains s.neighbour_ids p)) [
        | inl near ↦
            let later =
              send_empties-Announced (continue nx now finished) msg peers (count_forward s)
                (λ s. unfold continue in refl) in
            let (neighbours, delivered) = count_forward_lem s in
            rw near (record {
              last = later.last;
              ends = resent (sym (empties_near msg s.neighbour_ids peers p near)) (
                  goes_on {k = emptying msg finished peers} (
                    subst
                      (λ (ns : List String).
                        Ends
                          (send_empties (continue nx now finished) finished msg peers
                            (count_forward s))
                          (empties msg ns peers) later.last)
                      neighbours later.ends));
              same = later.same ∙ delivered;
              announced = later.announced;
            })
        | inr far ↦
            let later = send_empties-Announced next msg peers s at_end in
            rw far (record {
              last = later.last;
              ends = resent (sym (empties_far msg s.neighbour_ids peers p far)) later.ends;
              same = later.same;
              announced = later.announced;
            })
      ]

  delivers_nothing :
      (msg : DMsg P) (s : Dolev)
      → contains s.delivered msg.msg_id ≡ false
      → dist_paths nx s.f s.me (get_or s.paths msg.msg_id []) msg.source ≡ false
      → contains s.forwarded_empty msg.msg_id ≡ false
      → my_deliver nx now done finished false msg s
        ≡ send_empties done finished msg s.peers (note_delivered msg.msg_id s.me s)
  unfolding my_deliver empty_forward
  delivers_nothing msg s d few e = rw (d, few, e) refl

  -- If a message id is neither delivered nor announced and the recorded paths are not enough, then
  -- `my_deliver`, with the rest of its coroutine run to its end, delivers nothing and calls no
  -- parent, but sends each peer that is a neighbour, in order, an empty message, which claims a
  -- delivery; behind it the message id is announced and still not delivered.
  pub my_deliver-Announced :
      (msg : DMsg P) (s : Dolev)
      → contains s.delivered msg.msg_id ≡ false
      → dist_paths nx s.f s.me (get_or s.paths msg.msg_id []) msg.source ≡ false
      → contains s.forwarded_empty msg.msg_id ≡ false
      → (last : Dolev) × Ends
          (my_deliver nx now done finished false msg s)
          (empties msg s.neighbour_ids s.peers)
          last
        × (contains last.delivered msg.msg_id ≡ false)
        × (contains last.forwarded_empty msg.msg_id ≡ true)
  unfolding note_delivered
  my_deliver-Announced msg s d few e =
      let a =
        send_empties-Announced done msg s.peers (note_delivered msg.msg_id s.me s) (λ s. refl) in
      (
        a.last,
        subst (λ (t : Turn P). Ends t (empties msg s.neighbour_ids s.peers) a.last)
            (sym (delivers_nothing msg s d few e)) a.ends,
        ap (λ (xs : List String). contains xs msg.msg_id) a.same ∙ d,
        a.announced,
      )
