-- ===== src/Dolev/Machine.antt =====
-- A node of dolev.py on its event loop: messages arrive and coroutines go on in any order.
use distributed_algo.Prelude.{
  ℕ, String, List, [], ◌∷◌, ◌++◌, true, ◌≡◌, Option, none, some, map, arith, eq_string, ◌==◌,
  eq_iff, contains, IsDistinct, Bool-cases, inl, inr,
}
use distributed_algo.Dolev.State.{DMsg, Dolev}
use distributed_algo.Dolev.Graph.{Networkx}
use distributed_algo.Dolev.Handlers.{Task, Turn, dolev, resume}
use distributed_algo.Dolev.Soundness.{Sound, IsFresh}
use distributed_algo.Dolev.Soundness.Turns.{FromSource, dolev-Sound, resume-Sound}

pub record Machine (P : Type 0) : Type 0 where
  pub node : Dolev
  pub tasks : List (Task P)
  -- what the parent has been told, the latest first
  pub told : List (DMsg P)

module _ {P : Type 0} where
  unfoldable pub took : Machine P → Turn P → List (Task P) → Machine P
  took w t ts = record {
    node = t.node;
    tasks = elim t.rest [ none ↦ ts | some k ↦ k ∷ ts ];
    told = elim t.upcall [ none ↦ w.told | some msg ↦ msg ∷ w.told ];
  }

  pub data Step (nx : Networkx) (w : Machine P) : Machine P → Type 0 where
    hear :
        (now : ℕ) (src : String) (msg : DMsg P)
        → Step nx w (took w (dolev nx now src msg w.node) w.tasks)
    run :
        (now : ℕ) (before after : List (Task P)) (k : Task P)
        → w.tasks ≡ before ++ k ∷ after
        → Step nx w (took w (resume nx now k w.node) (before ++ after))

  pub data Reach (nx : Networkx) (s : Dolev) : Machine P → Type 0 where
    initial : Reach nx s (record { node = s; tasks = []; told = [] })
    next : {w w' : Machine P} → Reach nx s w → Step nx w w' → Reach nx s w'

  abbrev pub ids : List (DMsg P) → List String
  ids told = map (λ msg. msg.msg_id) told

  record Inv (w : Machine P) : Type 0 where
    distinct : IsDistinct (ids w.told)
    delivered : (m : String) → contains (ids w.told) m ≡ true → contains w.node.delivered m ≡ true

  told_once :
      (w : Machine P) (n : Dolev) (ts : List (Task P)) (msg : DMsg P)
      → Inv w
      → ((m : String) → contains w.node.delivered m ≡ true → contains n.delivered m ≡ true)
      → IsFresh w.node n (some msg)
      → Inv (record { node = n; tasks = ts; told = msg ∷ w.told })
  unfolding IsDistinct contains
  told_once w n ts msg inv grows f = record {
    distinct = (ground (arith, inv.delivered msg.msg_id), inv.distinct);
    delivered = λ m p. elim (Bool-cases (msg.msg_id == m)) [
      | inl e ↦ rw (← (eq_iff msg.msg_id m).0 e) f.1
      | inr e ↦ grows m (inv.delivered m (ground arith))
    ];
  }

  took-Inv :
      (nx : Networkx) (Direct : String → Type 0) (w : Machine P) (t : Turn P) (ts : List (Task P))
      → Sound nx Direct w.node t
      → Inv w
      → Inv (took w t ts)
  unfolding took
  took-Inv nx Direct w t ts h inv = go t.upcall h.upcall
    where
      go :
          (o : Option (DMsg P))
          → IsFresh w.node t.node o
          → Inv (record {
            node = t.node;
            tasks = elim t.rest [ none ↦ ts | some k ↦ k ∷ ts ];
            told = elim o [ none ↦ w.told | some msg ↦ msg ∷ w.told ];
          })
      go none f = record {
        distinct = inv.distinct;
        delivered = λ m p. h.grows m (inv.delivered m p);
      }
      go (some msg) f = told_once w t.node _ msg inv h.grows f

  Step-Inv : (nx : Networkx) {w w' : Machine P} → Step nx w w' → Inv w → Inv w'
  Step-Inv nx {w} (hear now src msg) inv =
      took-Inv nx (FromSource nx now src msg w.node) w _ w.tasks (dolev-Sound nx now src msg w.node)
        inv
  Step-Inv nx {w} (run now before after k e) inv =
      took-Inv nx (λ m. ⊥) w _ (before ++ after) (resume-Sound nx (λ m. ⊥) now k w.node) inv

  Reach-Inv : (nx : Networkx) (s : Dolev) {w : Machine P} → Reach nx s w → Inv w
  unfolding IsDistinct contains
  Reach-Inv nx s initial = record { distinct = tt; delivered = λ m p. absurd (ground arith) }
  Reach-Inv nx s (next r step) = Step-Inv nx step (Reach-Inv nx s r)

  -- However arrivals and coroutines interleave, from a node that starts in any state `s`, the parent
  -- is told of each message id at most once.
  pub told-IsDistinct :
      (nx : Networkx) (s : Dolev) {w : Machine P} → Reach nx s w → IsDistinct (ids w.told)
  told-IsDistinct nx s r = (Reach-Inv nx s r).distinct
