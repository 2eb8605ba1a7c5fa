-- ===== src/Dolev/Soundness.antt =====
-- Every turn of a node of dolev.py: what it delivers, tells its parent and sends has a reason.
pub mod Turns
use distributed_algo.Prelude.{
  ℕ, String, List, [], ◌∷◌, ◌++◌, Bool, true, false, not, ◌&&◌, ◌||◌, ◌≡◌, refl, sym, ◌∙◌, ◌⊎◌, inl,
  inr, Option, none, some, arith, eq_string, eq_list, ◌==◌, eq_iff, get_or, has, contains, add,
  contains-add, Bool-cases, if-cases, if◌then◌else◌,
}
use distributed_algo.Dolev.State.{
  DMsg, Dolev, ensure_neighbours, note_delivered, open_metric, stamp_delivery, count_parent,
  count_forward,
}
use distributed_algo.Dolev.Graph.{Networkx, dist_paths}
use distributed_algo.Dolev.Handlers.{
  Then, finished, rest_of_dolev, Task, forwarding, told_parent, emptying, Turn, done, record_path,
  send_empties, empty_forward, after_parent, tell_parent, my_deliver, delivered_neighbours, forward,
  continue_dolev, dolev, continue, resume,
}

-- What the guards of the handlers read, and no handler changes.
pub record SameNode (s s' : Dolev) : Type 0 where
  pub me : s'.me ≡ s.me
  pub f : s'.f ≡ s.f
  pub has_parent : s'.has_parent ≡ s.has_parent

-- Enough disjoint paths from some source have been recorded for the message id.
abbrev pub Enough : Networkx → Dolev → String → Type 0
Enough nx s m = (source : String) × (dist_paths nx s.f s.me (get_or s.paths m []) source ≡ true)

abbrev pub IsFresh : {P : Type 0} → Dolev → Dolev → Option (DMsg P) → Type 0
IsFresh s s' none = Unit
IsFresh s s' (some msg) =
    (contains s.delivered msg.msg_id ≡ false) × (contains s'.delivered msg.msg_id ≡ true)

abbrev pub ToNeighbour : {P : Type 0} → Dolev → Option (String × DMsg P) → Type 0
ToNeighbour s none = Unit
ToNeighbour s (some (p, msg)) = contains s.neighbour_ids p ≡ true

-- `Direct m`: the turn heard the message from its source itself.
pub record Sound {P : Type 0} (nx : Networkx) (Direct : String → Type 0) (s : Dolev) (t : Turn P)
    : Type 0 where
  pub config : SameNode s t.node
  pub grows : (m : String) → contains s.delivered m ≡ true → contains t.node.delivered m ≡ true
  pub upcall : IsFresh s t.node t.upcall
  pub target : ToNeighbour t.node t.sends
  pub reason :
      (m : String)
      → contains t.node.delivered m ≡ true
      → (contains s.delivered m ≡ true) ⊎ Direct m ⊎ Enough nx t.node m

-- A state that the guards do not tell from another, with the same messages delivered.
pub record Alike (s s' : Dolev) : Type 0 where
  pub config : SameNode s s'
  pub delivered : s'.delivered ≡ s.delivered

pub Enough-Alike :
    (nx : Networkx) {s s' : Dolev} (m : String)
    → (s'.paths ≡ s.paths) × SameNode s s'
    → Enough nx s m
    → Enough nx s' m
Enough-Alike nx m (p, c) (source, h) = (source, rw (p, c.f, c.me) h)

module _ {P : Type 0} (nx : Networkx) (Direct : String → Type 0) where
  pub Sound-done : {s : Dolev} (s' : Dolev) → Alike s s' → Sound {P = P} nx Direct s (done s')
  Sound-done s' a = record {
    config = a.config;
    grows = λ m h. rw a.delivered h;
    upcall = tt;
    target = tt;
    reason = λ m h. inl (rw a.delivered at h);
  }

  IsFresh-Alike :
      (s s' s'' : Dolev) (o : Option (DMsg P))
      → s'.delivered ≡ s.delivered
      → IsFresh s' s'' o
      → IsFresh s s'' o
  IsFresh-Alike s s' s'' none e h = tt
  IsFresh-Alike s s' s'' (some msg) e h = (rw (← e) h.0, h.1)

  pub Sound-Alike :
      {s s' : Dolev} (t : Turn P) → Alike s s' → Sound nx Direct s' t → Sound nx Direct s t
  Sound-Alike {s} {s'} t a h = record {
    config = record {
      me = h.config.me ∙ a.config.me;
      f = h.config.f ∙ a.config.f;
      has_parent = h.config.has_parent ∙ a.config.has_parent;
    };
    grows = λ m p. h.grows m (rw a.delivered p);
    upcall = IsFresh-Alike s s' t.node t.upcall a.delivered h.upcall;
    target = h.target;
    reason = λ m p. rw (← a.delivered) (h.reason m p);
  }

  -- A turn that goes on with `next` is as sound as `next`.
  module _ (next : Dolev → Turn P) (sound : (s : Dolev) → Sound nx Direct s (next s)) where
    pub send_empties-Sound :
        (k : Then P) (msg : DMsg P) (peers : List String) (s : Dolev)
        → Sound nx Direct s (send_empties next k msg peers s)
    unfolding send_empties
    send_empties-Sound k msg [] s = Sound-Alike _ (ground arith) (sound _)
    send_empties-Sound k msg (p ∷ peers) s = elim (Bool-cases (contains s.neighbour_ids p)) [
      | inl e ↦ rw e (record {
        config = ground arith;
        grows = λ m h. h;
        upcall = tt;
        target = e;
        reason = λ m h. inl h;
      })
      | inr e ↦ rw e (send_empties-Sound k msg peers s)
    ]

    pub empty_forward-Sound :
        (k : Then P) (msg : DMsg P) (s : Dolev) → Sound nx Direct s (empty_forward next k msg s)
    unfolding empty_forward note_delivered
    empty_forward-Sound k msg s = elim (Bool-cases (contains s.forwarded_empty msg.msg_id)) [
      | inl e ↦ rw e (sound s)
      | inr e ↦ rw e (
          Sound-Alike _ (ground arith)
            (send_empties-Sound k msg s.peers (note_delivered msg.msg_id s.me s)))
    ]

    pub after_parent-Sound :
        (direct : Bool) (k : Then P) (msg : DMsg P) (s : Dolev)
        → Sound nx Direct s (after_parent next direct msg k s)
    unfolding after_parent count_forward count_parent
    after_parent-Sound true k msg s =
        Sound-Alike _ (ground arith) (empty_forward-Sound k msg (count_forward s))
    after_parent-Sound false k msg s = empty_forward-Sound k msg s

    IsFresh-added :
        (s s' s'' : Dolev) (m : String) (o : Option (DMsg P))
        → s'.delivered ≡ add m s.delivered
        → IsFresh s' s'' o
        → IsFresh s s'' o
    IsFresh-added s s' s'' m none e h = tt
    IsFresh-added s s' s'' m (some msg) e h =
        (ground (arith, contains-add m msg.msg_id s.delivered), h.1)

    -- `s'` is `s` with the message id delivered.
    added-Sound :
        {s s' : Dolev} (m : String) (t : Turn P)
        → SameNode s s'
        → s'.delivered ≡ add m s.delivered
        → Direct m ⊎ Enough nx t.node m
        → Sound nx Direct s' t
        → Sound nx Direct s t
    added-Sound {s} {s'} m t c e why h = record {
      config = record {
        me = h.config.me ∙ c.me;
        f = h.config.f ∙ c.f;
        has_parent = h.config.has_parent ∙ c.has_parent;
      };
      grows = λ j p. h.grows j (ground (arith, contains-add m j s.delivered));
      upcall = IsFresh-added s s' t.node m t.upcall e h.upcall;
      target = h.target;
      reason = λ j p. elim (h.reason j p) [
        | inl old ↦ elim (Bool-cases (m == j)) [
          | inl q ↦ inr (rw (← (eq_iff m j).0 q) why)
          | inr q ↦ inl (ground (arith, contains-add m j s.delivered))
        ]
        | inr new ↦ inr new
      ];
    }

    pub tell_parent-Sound :
        (s s' : Dolev) (direct : Bool) (msg : DMsg P) (k : Then P)
        → SameNode s s'
        → contains s.delivered msg.msg_id ≡ false
        → s'.delivered ≡ add msg.msg_id s.delivered
        → Direct msg.msg_id ⊎ Enough nx s' msg.msg_id
        → Direct msg.msg_id ⊎ Enough nx (empty_forward next k msg s').node msg.msg_id
        → Sound nx Direct s (tell_parent next direct msg k s')
    unfolding tell_parent
    tell_parent-Sound s s' direct msg k c new e here there =
        if-cases (Sound nx Direct s) s'.has_parent
          (λ h. record {
            config = c;
            grows = λ j p. ground (arith, contains-add msg.msg_id j s.delivered);
            upcall = (
              new,
              ground (
                arith,
                contains-add msg.msg_id msg.msg_id s.delivered,
                eq_iff msg.msg_id msg.msg_id,
              ),
            );
            target = tt;
            reason = λ j p. elim (Bool-cases (msg.msg_id == j)) [
              | inl q ↦ inr (rw (← (eq_iff msg.msg_id j).0 q) here)
              | inr q ↦ inl (ground (arith, contains-add msg.msg_id j s.delivered))
            ];
          })
          (λ h. added-Sound msg.msg_id _ c e there (empty_forward-Sound k msg s'))
