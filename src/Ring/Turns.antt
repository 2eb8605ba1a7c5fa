-- ===== src/Ring/Turns.antt =====
-- chang_roberts.py: what the steps of a node of the ring keep.
use distributed_algo.Prelude.{
  ℕ, String, [], Bool, true, ◌≡◌, refl, sym, subst, ◌∙◌, nat_eqb_iff, arith, Option, none, some,
  eq_string, nat_eqb, ltb, if-cases, All, Result, ok, raises, ◌>>=◌, Returns,
}
use distributed_algo.Ring.Node.{
  Message, election, termination, ChangRoberts, cached, get_next_peer_tuple, Task, start_election,
  finish, Turn, on_start, elect_with, on_election, follow, terminate_from, on_termination, receive,
  begin_from, resume,
}
use distributed_algo.Ring.Flight.{Ring, IsNode, Flight, begun, passed, IsMax, home-IsMax}

module _ (ring : Ring) where
  -- A message that can be under way: an election of a flight, or the end of one that is won.
  abbrev pub Valid : String × Message → Type 0
  Valid (j, election v) = Flight ring j v
  Valid (j, termination l) = IsNode ring j × IsMax ring l

  abbrev pub LeaderIsMax : Option ℕ → Type 0
  LeaderIsMax none = Unit
  LeaderIsMax (some l) = IsMax ring l

  abbrev pub Finds : Option String → String → Type 0
  Finds none k = Unit
  Finds (some p) k = p ≡ ring.next k

  -- The node `k`, as it is configured, and what it knows.
  pub record Fits (k : String) (s : ChangRoberts) : Type 0 where
    pub id : s.id ≡ k
    pub peers : s.peers ≡ ring.peers k
    pub node_id : s.node_id ≡ ring.node_id k
    pub next : Finds s.next_peer_tuple k
    pub leader : LeaderIsMax s.leader

  abbrev pub TaskFits : String → Option Task → Type 0
  TaskFits k none = Unit
  TaskFits k (some finish) = Unit
  TaskFits k (some (start_election p)) = p ≡ ring.next k

  pub record Good (k : String) (t : Turn) : Type 0 where
    pub fits : Fits k t.node
    pub valid : All Valid t.out
    pub rest : TaskFits k t.rest

  module _ (k : String) (n : IsNode ring k) where
    cached-Fits :
        (c : Option String) (s : ChangRoberts)
        → Finds c k
        → Fits k s
        → Returns (cached c s) (λ r. (r.0 ≡ ring.next k) × Fits k r.1)
    unfolding cached
    cached-Fits (some p) s e f = (e, f)
    cached-Fits none s e f =
        rw (f.id, f.peers, ring.finds k n)
          (
            refl,
            record { id = refl; peers = refl; node_id = f.node_id; next = refl; leader = f.leader },
          )

    home :
        (v : ℕ) (s : ChangRoberts)
        → Flight ring k v
        → Fits k s
        → nat_eqb v s.node_id ≡ true
        → IsMax ring s.node_id
    home v s flight f h =
        let same : v ≡ s.node_id = (nat_eqb_iff v s.node_id).0 h in
        subst (IsMax ring) same (home-IsMax ring flight (same ∙ f.node_id))

    elect-Good :
        (v : ℕ) (s : ChangRoberts)
        → Flight ring k v
        → Fits k s
        → Good k (elect_with v (ring.next k) s)
    unfolding elect_with
    elect-Good v s flight f =
        if-cases (Good k) (nat_eqb v s.node_id)
          (λ h.
            let won : IsMax ring s.node_id = home v s flight f h in
            record {
              fits = record {
                id = f.id;
                peers = f.peers;
                node_id = f.node_id;
                next = f.next;
                leader = won;
              };
              valid = ((ring.next_node k n, won), tt);
              rest = tt;
            })
          (λ h.
            if-cases (Good k) (ltb s.node_id v)
              (λ g. record {
                fits = f;
                valid = (passed flight n (ground (arith, f.node_id)), tt);
                rest = tt;
              })
              (λ g. record {
                fits = f;
                valid = (subst (Flight ring (ring.next k)) (sym f.node_id) (begun k n), tt);
                rest = tt;
              }))

    follow-Good :
        (l : ℕ) (s : ChangRoberts) → IsMax ring l → Fits k s → Good k (follow l (ring.next k) s)
    unfolding follow
    follow-Good l s max f =
        let known : (b : Bool) → Fits k (record s { leader = some l; terminated = b }) = λ b.
          record { id = f.id; peers = f.peers; node_id = f.node_id; next = f.next; leader = max } in
        if-cases (Good k) (nat_eqb l s.node_id)
          (λ h. record { fits = known true; valid = tt; rest = tt })
          (λ h. record {
            fits = known s.terminated;
            valid = ((ring.next_node k n, max), tt);
            rest = tt;
          })

    begin-Good :
        (c : Option ℕ) (s : ChangRoberts) → Fits k s → Good k (begin_from c (ring.next k) s)
    unfolding begin_from
    begin-Good (some l) s f = record { fits = f; valid = tt; rest = tt }
    begin-Good none s f = record {
      fits = f;
      valid = (subst (Flight ring (ring.next k)) (sym f.node_id) (begun k n), tt);
      rest = tt;
    }

    with_next :
        (r : Result (String × ChangRoberts)) (g : String → ChangRoberts → Turn)
        → Returns r (λ q. (q.0 ≡ ring.next k) × Fits k q.1)
        → ((s : ChangRoberts) → Fits k s → Good k (g (ring.next k) s))
        → Returns (do (p, s) ← r; ok (g p s)) (Good k)
    with_next (ok (p, s)) g h good = subst (λ p. Good k (g p s)) (sym h.0) (good s h.1)
    with_next (raises x) g h good = h

    terminate-Good :
        (c : Option ℕ) (l : ℕ) (s : ChangRoberts)
        → IsMax ring l
        → Fits k s
        → Returns (terminate_from c l s) (Good k)
    unfolding terminate_from get_next_peer_tuple
    terminate-Good (some j) l s max f = record { fits = f; valid = tt; rest = tt }
    terminate-Good none l s max f =
        with_next (cached s.next_peer_tuple s) (follow l) (cached-Fits s.next_peer_tuple s f.next f)
          (λ s' f'. follow-Good l s' max f')

    -- The steps of a node return, and keep what fits.
    pub receive-Good :
        (m : Message) (s : ChangRoberts) → Valid (k, m) → Fits k s → Returns (receive m s) (Good k)
    unfolding receive on_election on_termination get_next_peer_tuple
    receive-Good (election v) s valid f =
        with_next (cached s.next_peer_tuple s) (elect_with v)
          (cached-Fits s.next_peer_tuple s f.next f) (λ s' f'. elect-Good v s' valid f')
    receive-Good (termination l) s valid f = terminate-Good s.leader l s valid.1 f

    pub start-Good : (s : ChangRoberts) → Fits k s → Returns (on_start s) (Good k)
    unfolding on_start get_next_peer_tuple
    start-Good s f =
        with_next (cached s.next_peer_tuple s)
          (λ p s'. record { node = s'; out = []; rest = some (start_election p) })
          (cached-Fits s.next_peer_tuple s f.next f)
          (λ s' f'. record { fits = f'; valid = tt; rest = refl })

    pub resume-Good :
        (task : Task) (s : ChangRoberts)
        → TaskFits k (some task)
        → Fits k s
        → Good k (resume task s)
    unfolding resume
    resume-Good (start_election p) s e f =
        subst (λ p. Good k (begin_from s.leader p s)) (sym e) (begin-Good s.leader s f)
    resume-Good finish s e f = record {
      fits = record {
        id = f.id;
        peers = f.peers;
        node_id = f.node_id;
        next = f.next;
        leader = f.leader;
      };
      valid = tt;
      rest = tt;
    }
