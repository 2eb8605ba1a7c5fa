-- ===== src/Ring/Flight.antt =====
-- chang_roberts.py: why an id that comes back to its node is the largest of the ring.
use distributed_algo.Prelude.{
  ℕ, ◌≤◌, ◌<◌, String, List, true, ◌≡◌, refl, sym, subst, ◌∙◌, ap, ◌⊎◌, inl, inr, arith, eq_string,
  contains, ok,
}
use distributed_algo.Ring.Node.{find_next}

-- A ring: the nodes, with the peers and the `node_id` that each is configured with, where the code
-- finds the next node. Ids differ, and whoever starts at one node and goes on comes to each.
pub record Ring : Type 1 where
  pub nodes : List String
  pub peers : String → List String
  pub node_id : String → ℕ
  pub next : String → String
  pub next_node : (k : String) → contains nodes k ≡ true → contains nodes (next k) ≡ true
  pub finds : (k : String) → contains nodes k ≡ true → find_next k (peers k) ≡ ok (next k)
  pub distinct :
      (i j : String)
      → contains nodes i ≡ true
      → contains nodes j ≡ true
      → node_id i ≡ node_id j
      → i ≡ j
  pub connected :
      (P : String → Type 0) (i : String)
      → contains nodes i ≡ true
      → P i
      → ((k : String) → P k → P (next k))
      → (k : String) → contains nodes k ≡ true
      → P k

module _ (ring : Ring) where
  abbrev pub IsNode : String → Type 0
  IsNode k = contains ring.nodes k ≡ true

  -- The id `v` on its way to the node `j`: begun by its node, passed on by nodes of smaller id.
  pub data Flight : String → ℕ → Type 0 where
    begun : (i : String) → IsNode i → Flight (ring.next i) (ring.node_id i)
    passed :
        {j : String} → {v : ℕ} → Flight j v → IsNode j → ring.node_id j < v → Flight (ring.next j) v

  -- `k` has begun the flight, or passed it on
  abbrev Seen : {j : String} {v : ℕ} → Flight j v → String → Type 0
  Seen (begun i n) k = i ≡ k
  Seen (passed {j} f n h) k = (j ≡ k) ⊎ Seen f k

  pub target-IsNode : {j : String} {v : ℕ} → Flight j v → IsNode j
  target-IsNode (begun i n) = ring.next_node i n
  target-IsNode (passed {j} f n h) = ring.next_node j n

  -- the largest id of the ring
  pub record IsMax (v : ℕ) : Type 0 where
    pub bound : (k : String) → IsNode k → ring.node_id k ≤ v
    pub holder : String
    pub holder_node : IsNode holder
    pub held : ring.node_id holder ≡ v

  Seen-le : {j : String} {v : ℕ} (f : Flight j v) (k : String) → Seen f k → ring.node_id k ≤ v
  Seen-le (begun i n) k e = rw (← e) (omega arith)
  Seen-le (passed {j} f n h) k (inl e) = rw (← e) (omega arith)
  Seen-le (passed f n h) k (inr s) = Seen-le f k s

  -- the node that has begun the flight
  origin :
      {j : String} {v : ℕ} (f : Flight j v)
      → (i : String) × IsNode i × (ring.node_id i ≡ v) × Seen f i
  origin (begun i n) = (i, n, refl, refl)
  origin (passed f n h) = let (i, m, e, s) = origin f in (i, m, e, inr s)

  Seen-next :
      {j : String} {v : ℕ} (f : Flight j v) (k : String)
      → Seen f k
      → (ring.next k ≡ j) ⊎ Seen f (ring.next k)
  Seen-next (begun i n) k e = inl (ap ring.next (sym e))
  Seen-next (passed f n h) k (inl e) = inl (ap ring.next (sym e))
  Seen-next (passed f n h) k (inr s) = elim (Seen-next f k s) [
    | inl e ↦ inr (inl (sym e))
    | inr t ↦ inr (inr t)
  ]

  -- A flight that comes to the node with its own id has seen all, so the id is the largest.
  pub home-IsMax : {j : String} {v : ℕ} (f : Flight j v) → v ≡ ring.node_id j → IsMax v
  home-IsMax {j} {v} f home =
      let (i, n, e, s) = origin f in
      let back : i ≡ j = ring.distinct i j n (target-IsNode f) (e ∙ home) in
      let closed : (k : String) → Seen f k → Seen f (ring.next k) =
        λ k t. elim (Seen-next f k t) [ inl at ↦ subst (Seen f) (back ∙ sym at) s | inr u ↦ u ] in
      record {
        bound = λ k m. Seen-le f k (ring.connected (Seen f) i n s closed k m);
        holder = i;
        holder_node = n;
        held = e;
      }
