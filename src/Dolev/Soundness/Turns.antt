-- ===== src/Dolev/Soundness/Turns.antt =====
-- The handlers of dolev.py, turn by turn: each is sound, whatever happened while it waited.
use distributed_algo.Prelude.{
  ℕ, String, List, [], ◌∷◌, ◌++◌, Bool, true, false, not, ◌&&◌, ◌≡◌, refl, inl, inr, arith,
  eq_string, eq_list, ◌==◌, eq_iff, get_or, contains, add, if-cases,
}
use distributed_algo.Dolev.State.{
  DMsg, Dolev, ensure_neighbours, note_delivered, open_metric, stamp_delivery, count_parent,
  count_forward,
}
use distributed_algo.Dolev.Graph.{Networkx, dist_paths}
use distributed_algo.Dolev.Handlers.{
  Then, finished, rest_of_dolev, Task, forwarding, told_parent, emptying, Turn, done, record_path,
  send_empties, empty_forward, my_deliver, delivered_neighbours, forward, continue_dolev, dolev,
  continue, resume,
}
use distributed_algo.Dolev.Soundness.{
  SameNode, Enough-Alike, Alike, Sound, Sound-done, Sound-Alike, send_empties-Sound,
  empty_forward-Sound, after_parent-Sound, tell_parent-Sound,
}

module _ {P : Type 0} (nx : Networkx) (Direct : String → Type 0) where
  -- The direct delivery of MD1; the rest of the handler follows.
  direct-Sound :
      (now : ℕ) (next : Dolev → Turn P) (k : Then P) (msg : DMsg P) (s : Dolev)
      → ((s : Dolev) → Sound nx Direct s (next s))
      → contains s.delivered msg.msg_id ≡ false
      → Direct msg.msg_id
      → Sound nx Direct s (my_deliver nx now next k true msg s)
  unfolding my_deliver stamp_delivery
  direct-Sound now next k msg s sound new d = rw new (
      tell_parent-Sound nx Direct next sound s
        (stamp_delivery now msg.msg_id (record s { delivered = add msg.msg_id s.delivered })) true
        msg k (ground arith) new refl (inl d) (inl d))

  quiet-paths :
      (k : Then P) (msg : DMsg P) (peers : List String) (s : Dolev)
      → ((send_empties done k msg peers s).node.paths ≡ s.paths)
        × SameNode s (send_empties done k msg peers s).node
  unfolding send_empties
  quiet-paths k msg [] s = ground arith
  quiet-paths k msg (p ∷ peers) s =
      if-cases (λ (t : Turn P). (t.node.paths ≡ s.paths) × SameNode s t.node)
        (contains s.neighbour_ids p) (λ h. ground arith) (λ h. quiet-paths k msg peers s)

  quiet-empty_forward :
      (msg : DMsg P) (s : Dolev)
      → ((empty_forward done finished msg s).node.paths ≡ s.paths)
        × SameNode s (empty_forward done finished msg s).node
  unfolding empty_forward note_delivered
  quiet-empty_forward msg s =
      if-cases (λ (t : Turn P). (t.node.paths ≡ s.paths) × SameNode s t.node)
        (contains s.forwarded_empty msg.msg_id) (λ h. ground arith)
        (λ h.
          let s' = note_delivered msg.msg_id s.me s in
          let (p, c) = quiet-paths finished msg s.peers s' in
          (p, record { me = c.me; f = c.f; has_parent = c.has_parent }))

  Sound-here : (s : Dolev) → Sound {P = P} nx Direct s (done s)
  Sound-here s = Sound-done nx Direct s (ground arith)

  -- The delivery at the end of the handler: only where the paths suffice.
  my_deliver-Sound :
      (now : ℕ) (msg : DMsg P) (s : Dolev)
      → Sound nx Direct s (my_deliver nx now done finished false msg s)
  unfolding my_deliver stamp_delivery note_delivered
  my_deliver-Sound now msg s =
      if-cases (Sound nx Direct s) (contains s.delivered m && contains s.forwarded_empty m)
        (λ h. Sound-here s)
        (λ h.
          if-cases (Sound nx Direct s) (not (contains s.delivered m))
            (λ new.
              if-cases (Sound nx Direct s) (dist_paths nx s.f s.me (get_or s.paths m []) msg.source)
                (λ enough.
                  tell_parent-Sound nx Direct done Sound-here s s' false msg finished (ground arith)
                    (ground arith) refl (inr (msg.source, enough))
                    (inr (Enough-Alike nx m (quiet-empty_forward msg s') (msg.source, enough))))
                (λ few. empty_forward-Sound nx Direct done Sound-here finished msg s))
            (λ old. Sound-here s))
    where
      m : String
      m = msg.msg_id

      s' : Dolev
      s' = stamp_delivery now m (note_delivered m s.me (record s { delivered = add m s.delivered }))

  forward-Sound :
      (now : ℕ) (msg : DMsg P) (new_path : List String) (known : Bool) (peers : List String)
      (s : Dolev)
      → Sound nx Direct s (forward nx now msg new_path known peers s)
  unfolding forward
  forward-Sound now msg new_path known [] s = my_deliver-Sound now msg s
  forward-Sound now msg new_path known (p ∷ peers) s =
      if-cases (Sound nx Direct s)
        (contains s.neighbour_ids p
          && not (contains new_path p)
          && not (contains (delivered_neighbours known msg.msg_id s) p))
        (λ h. record {
          config = ground arith;
          grows = λ m q. q;
          upcall = tt;
          target = ground arith;
          reason = λ m q. inl q;
        })
        (λ h. forward-Sound now msg new_path known peers s)

  continue_dolev-Sound :
      (now : ℕ) (src : String) (msg : DMsg P) (s : Dolev)
      → Sound nx Direct s (continue_dolev nx now src msg s)
  unfolding continue_dolev record_path note_delivered
  continue_dolev-Sound now src msg s =
      if-cases (Sound nx Direct s) ((msg.path == []) && not (src == msg.source))
        (λ h. Sound-done nx Direct _ (ground arith))
        (λ h.
          if-cases (Sound nx Direct s)
            (contains (get_or s.neighbour_delivered msg.msg_id []) src && contains msg.path src)
            (λ h. Sound-here s)
            (λ h. Sound-Alike nx Direct _ (ground arith) (
              forward-Sound now msg _ _ s.peers (record_path msg.msg_id (msg.path ++ src ∷ []) s))))

  continue-Sound : (now : ℕ) (k : Then P) (s : Dolev) → Sound nx Direct s (continue nx now k s)
  unfolding continue
  continue-Sound now finished s = Sound-here s
  continue-Sound now (rest_of_dolev src msg) s = continue_dolev-Sound now src msg s

  -- The rest of a coroutine, whatever happened while it waited.
  pub resume-Sound : (now : ℕ) (k : Task P) (s : Dolev) → Sound nx Direct s (resume nx now k s)
  unfolding resume count_forward count_parent
  resume-Sound now (forwarding msg new_path known peers) s =
      Sound-Alike nx Direct _ (ground arith)
        (forward-Sound now msg new_path known peers (count_forward s))
  resume-Sound now (told_parent direct msg k) s =
      after_parent-Sound nx Direct (continue nx now k) (continue-Sound now k) direct k msg s
  resume-Sound now (emptying msg k peers) s = Sound-Alike nx Direct _ (ground arith) (
      send_empties-Sound nx Direct (continue nx now k) (continue-Sound now k) k msg peers
        (count_forward s))

module _ {P : Type 0} (nx : Networkx) (now : ℕ) (src : String) (msg : DMsg P) (s : Dolev) where
  -- The message came from its source itself.
  abbrev pub FromSource : String → Type 0
  FromSource m = (m ≡ msg.msg_id) × (src ≡ msg.source)

  opened : Dolev
  opened = open_metric now msg.msg_id (ensure_neighbours s)

  ensured-Alike : Alike s (ensure_neighbours s)
  unfolding ensure_neighbours
  ensured-Alike = ground arith

  opened-Alike : Alike s opened
  unfolding opened open_metric
  opened-Alike = ground (arith, ensured-Alike)

  pub dolev-Sound : Sound nx FromSource s (dolev nx now src msg s)
  unfolding dolev opened
  dolev-Sound =
      if-cases (Sound nx FromSource s) (s.behavior_mode == "BYZANTINE_SILENT")
        (λ h. Sound-here nx FromSource s)
        (λ h.
          if-cases (Sound nx FromSource s) (not (contains (ensure_neighbours s).neighbour_ids src))
            (λ h. Sound-done nx FromSource _ ensured-Alike)
            (λ h.
              if-cases (Sound nx FromSource s)
                (contains (ensure_neighbours s).delivered msg.msg_id
                  && contains (ensure_neighbours s).forwarded_empty msg.msg_id)
                (λ h. Sound-done nx FromSource _ ensured-Alike)
                (λ h.
                  if-cases (Sound nx FromSource s)
                    (src == msg.source && not (contains opened.delivered msg.msg_id))
                    (λ h. Sound-Alike nx FromSource _ opened-Alike (
                      direct-Sound nx FromSource now (continue_dolev nx now src msg)
                        (rest_of_dolev src msg) msg opened
                        (continue_dolev-Sound nx FromSource now src msg) (ground arith)
                        (refl, ground (arith, eq_iff src msg.source))))
                    (λ h.
                      Sound-Alike nx FromSource _ opened-Alike
                        (continue_dolev-Sound nx FromSource now src msg opened)))))
