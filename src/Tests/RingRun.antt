-- ===== src/Tests/RingRun.antt =====
-- A ring of two nodes of chang_roberts.py that elects the larger id.
use distributed_algo.Prelude.{
  ℕ, String, [], ◌∷◌, true, ◌≡◌, refl, sym, subst, ◌∙◌, ok, ◌⊎◌, inl, inr, arith, eq_string, eq_iff,
  ◌==◌, contains, sorted, insert_sorted, index_of, if◌then◌else◌,
}
use distributed_algo.Ring.Node.{
  election, termination, init, find_next, cached, get_next_peer_tuple, start_election, on_start,
  elect_with, on_election, follow, terminate_from, on_termination, receive, begin_from, resume,
}
use distributed_algo.Ring.Flight.{Ring, IsMax}
use distributed_algo.Ring.Election.{
  State, start, after, Reach, initial, starts, hears, resumes, leader-IsMax,
}

program : Unit {0}
unfolding contains sorted insert_sorted index_of init find_next cached get_next_peer_tuple on_start
    elect_with on_election follow terminate_from on_termination receive begin_from resume start
    after
program = tt

abbrev other : String → String
other k = if k == "a" then "b" else "a"

abbrev id_of : String → ℕ
id_of k = if k == "a" then 7 else 3

two : (k : String) → contains ("a" ∷ "b" ∷ []) k ≡ true → (k ≡ "a") ⊎ (k ≡ "b")
unfolding program
two k n = ground (arith, eq_iff "a" k, eq_iff "b" k)

next_node :
    (k : String) → contains ("a" ∷ "b" ∷ []) k ≡ true → contains ("a" ∷ "b" ∷ []) (other k) ≡ true
unfolding program
next_node k n = elim (two k n) [ inl e ↦ rw e refl | inr e ↦ rw e refl ]

finds :
    (k : String) → contains ("a" ∷ "b" ∷ []) k ≡ true → find_next k (other k ∷ []) ≡ ok (other k)
unfolding program
finds k n = elim (two k n) [ inl e ↦ rw e refl | inr e ↦ rw e refl ]

distinct :
    (i j : String)
    → contains ("a" ∷ "b" ∷ []) i ≡ true
    → contains ("a" ∷ "b" ∷ []) j ≡ true
    → id_of i ≡ id_of j
    → i ≡ j
distinct i j m n same = ground (arith, eq_iff i "a", eq_iff j "a", two i m, two j n)

connected :
    (P : String → Type 0) (i : String)
    → contains ("a" ∷ "b" ∷ []) i ≡ true
    → P i
    → ((k : String) → P k → P (other k))
    → (k : String) → contains ("a" ∷ "b" ∷ []) k ≡ true
    → P k
connected P i m p closed k n = elim (two i m) [
  | inl e ↦ elim (two k n) [
    | inl g ↦ subst P (e ∙ sym g) p
    | inr g ↦ subst P (sym g) (closed "a" (subst P e p))
  ]
  | inr e ↦ elim (two k n) [
    | inl g ↦ subst P (sym g) (closed "b" (subst P e p))
    | inr g ↦ subst P (e ∙ sym g) p
  ]
]

abbrev ring : Ring
ring = record {
  nodes = "a" ∷ "b" ∷ [];
  peers = λ k. other k ∷ [];
  node_id = id_of;
  next = other;
  next_node = next_node;
  finds = finds;
  distinct = distinct;
  connected = connected;
}

record Ran : Type 1 where
  state : State ring
  reach : Reach ring state

-- `b` begins with its id 3, which `a` replaces by 7; `b` passes that on, and `a` has won.
abbrev elected : Ran
unfolding program
elected = record {
  state = _;
  reach =
      hears
        (hears
          (hears
            (hears (resumes (starts initial "b" refl refl) "b" (start_election "a") (inl refl)) "a"
              (election 3) (inl refl) refl)
            "b" (election 7) (inl refl) refl)
          "a" (election 7) (inl refl) refl)
        "b" (termination 7) (inl refl) refl;
}

leader-IsMax_example : IsMax ring 7
unfolding program
leader-IsMax_example = leader-IsMax ring elected.state "b" 7 elected.reach refl refl
