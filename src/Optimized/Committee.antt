-- ===== src/Optimized/Committee.antt =====
-- distbench-py/distbench/algorithms/bracha_optimized.py: which nodes generate a message.
-- `Node.__init__` gives the algorithm its id before any handler runs, so `self.id()` does not raise.
use distributed_algo.Prelude.{
  ℕ, zero, suc, ◌+◌, ◌%◌, ◌≤◌, ◌<◌, String, List, [], ◌∷◌, true, ◌≡◌, Option, none, some, arith,
  eq_string, add, contains, contains-add, length-add, length, get_elem?, sorted, length-sorted,
  contains-sorted, get_elem-inside, index_of, ok, raises, IsDistinct, IsDistinct-add,
}

abbrev pub add_at : Option String → List String → List String
add_at none s = s
add_at (some x) s = add x s

-- `for i in range(1, count + 1): eligible.add(all_ids[(sender_idx + i) % n])`, from `first` on
unfoldable pub collect : List String → ℕ → ℕ → List String → List String
collect ids first zero eligible = eligible
collect ids first (suc count) eligible =
    collect ids (first + 1) count (add_at (get_elem? ids (first % length ids)) eligible)

-- an unknown sender has no committee
unfoldable pub calculate_eligible_nodes : String → List String → String → ℕ → List String
unfolding collect
calculate_eligible_nodes me peers sender count =
    let all_ids = sorted (me ∷ peers) in
    elim (index_of all_ids sender) [
      | raises x ↦ []
      | ok sender_idx ↦ collect all_ids (sender_idx + 1) count []
    ]

-- A set of at most `bound` of the nodes `ids`.
pub record IsCommittee (ids : List String) (bound : ℕ) (s : List String) : Type 0 where
  pub distinct : IsDistinct s
  pub nodes : (x : String) → contains s x ≡ true → contains ids x ≡ true
  pub size : length s ≤ bound

IsCommittee-add :
    (ids s : List String) (bound : ℕ) (x : String)
    → contains ids x ≡ true
    → IsCommittee ids bound s
    → IsCommittee ids (suc bound) (add x s)
IsCommittee-add ids s bound x inside c = record {
  distinct = IsDistinct-add x s c.distinct;
  nodes = λ y h. ground (arith, contains-add x y s, eq_string.sound x y, c.nodes y);
  size = omega (arith, (length-add x s).1, c.size);
}

collect-IsCommittee :
    (ids : List String) (first count bound total : ℕ) (s : List String)
    → 0 < length ids
    → bound + count ≤ total
    → IsCommittee ids bound s
    → IsCommittee ids total (collect ids first count s)
unfolding collect
collect-IsCommittee ids first zero bound total s some_node fits c = record {
  distinct = c.distinct;
  nodes = c.nodes;
  size = omega (arith, c.size);
}
collect-IsCommittee ids first (suc count) bound total s some_node fits c =
    let (x, at, inside) = get_elem-inside ids (first % length ids) (omega arith) in
    collect-IsCommittee ids (first + 1) count (suc bound) total _ some_node (omega arith)
      (rw at (IsCommittee-add ids s bound x inside c))

-- Whoever is asked for, the committee is a set of nodes, no larger than it is to be.
pub eligible-IsCommittee :
    (me : String) (peers : List String) (sender : String) (count : ℕ)
    → IsCommittee (me ∷ peers) count (calculate_eligible_nodes me peers sender count)
unfolding calculate_eligible_nodes IsDistinct contains
eligible-IsCommittee me peers sender count =
    let ids = sorted (me ∷ peers) in
    elim (index_of ids sender)
      as (λ r.
        IsCommittee (me ∷ peers) count
          (elim r [ raises x ↦ [] | ok i ↦ collect ids (i + 1) count [] ])) [
            | raises x ↦ record { distinct = tt; nodes = λ y h. ground arith; size = omega arith }
            | ok i ↦
                let c =
                  collect-IsCommittee ids (i + 1) count 0 count []
                    (omega (arith, length-sorted (me ∷ peers))) (omega arith)
                    (record { distinct = tt; nodes = λ y h. ground arith; size = omega arith }) in
                record {
                  distinct = c.distinct;
                  nodes = λ y h. rw (← contains-sorted (me ∷ peers) y) (c.nodes y h);
                  size = c.size;
                }
          ]
