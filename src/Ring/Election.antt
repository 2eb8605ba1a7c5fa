-- ===== src/Ring/Election.antt =====
-- chang_roberts.py: the ring of nodes, whose messages and coroutines run in any order, also more
-- than once, and the leaders that it can elect.
use distributed_algo.Prelude.{
  ℕ, String, List, [], ◌∷◌, ◌++◌, ◌≡◌, refl, subst, arith, Option, none, some, eq_string, ◌==◌,
  if◌then◌else◌, if-cases, All, All-append, All-Among, Among, ok, Returns-ok,
}
use distributed_algo.Ring.Node.{
  Message, election, termination, ChangRoberts, init, Task, Turn, on_start, receive, resume,
}
use distributed_algo.Ring.Flight.{Ring, IsNode, IsMax, target-IsNode}
use distributed_algo.Ring.Turns.{Valid, TaskFits, Fits, Good, receive-Good, start-Good, resume-Good}

module _ (ring : Ring) where
  -- the ring: its nodes, all messages sent so far, and all coroutines that have waited
  pub record State : Type 0 where
    pub nodes : String → ChangRoberts
    pub sent : List (String × Message)
    pub tasks : List (String × Task)

  unfoldable pub start : State
  start = record { nodes = λ k. init k (ring.peers k) (ring.node_id k); sent = []; tasks = [] }

  abbrev waits : String → Option Task → List (String × Task) → List (String × Task)
  waits k none tasks = tasks
  waits k (some task) tasks = (k, task) ∷ tasks

  unfoldable pub after : String → Turn → State → State
  after k t σ = record {
    nodes = λ j. if k == j then t.node else σ.nodes j;
    sent = t.out ++ σ.sent;
    tasks = waits k t.rest σ.tasks;
  }

  pub data Reach : State → Type 0 where
    initial : Reach start
    starts :
        {σ : State}
        → {t : Turn} → Reach σ
        → (k : String) → IsNode ring k
        → on_start (σ.nodes k) ≡ ok t
        → Reach (after k t σ)
    hears :
        {σ : State}
        → {t : Turn} → Reach σ
        → (k : String) → (m : Message) → Among (k, m) σ.sent
        → receive m (σ.nodes k) ≡ ok t
        → Reach (after k t σ)
    resumes :
        {σ : State}
        → Reach σ
        → (k : String) → (task : Task) → Among (k, task) σ.tasks
        → Reach (after k (resume task (σ.nodes k)) σ)

  abbrev TaskAt : String × Task → Type 0
  TaskAt (k, task) = IsNode ring k × TaskFits ring k (some task)

  record Sane (σ : State) : Type 0 where
    fits : (k : String) → IsNode ring k → Fits ring k (σ.nodes k)
    sent : All (Valid ring) σ.sent
    tasks : All TaskAt σ.tasks

  waits-All :
      (k : String) (rest : Option Task) (tasks : List (String × Task))
      → IsNode ring k
      → TaskFits ring k rest
      → All TaskAt tasks
      → All TaskAt (waits k rest tasks)
  waits-All k none tasks n e h = h
  waits-All k (some task) tasks n e h = ((n, e), h)

  after-Sane :
      (k : String) (t : Turn) (σ : State)
      → IsNode ring k
      → Good ring k t
      → Sane σ
      → Sane (after k t σ)
  unfolding after
  after-Sane k t σ n g h = record {
    fits = λ j m.
        if-cases (Fits ring j) (k == j)
          (λ e. subst (λ i. Fits ring i t.node) ((eq_string.sound k j).0 e) g.fits)
          (λ e. h.fits j m);
    sent = All-append (Valid ring) t.out σ.sent g.valid h.sent;
    tasks = waits-All k t.rest σ.tasks n g.rest h.tasks;
  }

  Valid-IsNode : (k : String) (m : Message) → Valid ring (k, m) → IsNode ring k
  Valid-IsNode k (election v) f = target-IsNode ring f
  Valid-IsNode k (termination l) f = f.0

  reach-Sane : {σ : State} → Reach σ → Sane σ
  unfolding start init
  reach-Sane initial = record {
    fits = λ k n. record { id = refl; peers = refl; node_id = refl; next = tt; leader = tt };
    sent = tt;
    tasks = tt;
  }
  reach-Sane (starts {σ} {t} r k n e) =
      let h = reach-Sane r in
      after-Sane k t σ n (Returns-ok (Good ring k) (start-Good ring k n (σ.nodes k) (h.fits k n)) e)
        h
  reach-Sane (hears {σ} {t} r k m among e) =
      let h = reach-Sane r in
      let v = All-Among (Valid ring) σ.sent (k, m) h.sent among in
      let n = Valid-IsNode k m v in
      after-Sane k t σ n
        (Returns-ok (Good ring k) (receive-Good ring k n m (σ.nodes k) v (h.fits k n)) e) h
  reach-Sane (resumes {σ} r k task among) =
      let h = reach-Sane r in
      let v = All-Among TaskAt σ.tasks (k, task) h.tasks among in
      after-Sane k (resume task (σ.nodes k)) σ v.0
        (resume-Good ring k v.0 task (σ.nodes k) v.1 (h.fits k v.0)) h

  -- In every reachable state, the leader that a node knows is the largest id of the ring, and it is
  -- the id of a node.
  pub leader-IsMax :
      (σ : State) (k : String) (l : ℕ)
      → Reach σ
      → IsNode ring k
      → (σ.nodes k).leader ≡ some l
      → IsMax ring l
  leader-IsMax σ k l r n e = rw e at ((reach-Sane r).fits k n).leader

  -- In every reachable state, two nodes that know a leader know the same one.
  pub leaders-agree :
      (σ : State) (i j : String) (l m : ℕ)
      → Reach σ
      → IsNode ring i
      → IsNode ring j
      → (σ.nodes i).leader ≡ some l
      → (σ.nodes j).leader ≡ some m
      → l ≡ m
  leaders-agree σ i j l m r ni nj ei ej =
      let a = leader-IsMax σ i l r ni ei in
      let b = leader-IsMax σ j m r nj ej in
      omega (arith, a.bound b.holder b.holder_node, a.held, b.bound a.holder a.holder_node, b.held)
