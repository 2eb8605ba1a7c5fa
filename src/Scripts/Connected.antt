-- ===== src/Scripts/Connected.antt =====
-- distbench-py/scripts/generate_configs.py: which nodes the ring topology links.
use distributed_algo.Prelude.{
  ℕ, zero, suc, ◌+◌, ◌-◌, ◌/◌, ◌%◌, ◌≤◌, ◌<◌, String, List, [], ◌∷◌, ◌++◌, Bool, some, take,
  contains, eq_string, leb, ltb, nat_eqb, ◌&&◌, ◌||◌, if◌then◌else◌, ◌≡◌, refl, sym, ap, ◌∙◌, arith,
  length, get, put, get-put_same, get-put_other, contains-add, length-add, nat_eqb_iff,
  length-append, ◌==◌, Bool-cases, inl, inr, subst,
}
use native.Mathlib.Nat.{mod-eq_of_lt, mod-eq-sub-mod}
use distributed_algo.Launch.Config.{set_of}
use distributed_algo.Scripts.{
  minus_mod, append_round, node_neighbours, neighbours_of, rounds, generate_ring_topology,
}

-- the number of steps from a node to another, the shorter way round a ring of `n` nodes
unfoldable pub ring_distance : ℕ → ℕ → ℕ → ℕ
ring_distance n i j =
    let way = if leb i j then j - i else i - j in if leb way (n - way) then way else n - way

mod_wrapped : (a n : ℕ) → a < n + n → a % n ≡ (if ltb a n then a else a - n)
mod_wrapped a n h = elim (Bool-cases (ltb a n)) [
  | inl small ↦ rw small (mod-eq_of_lt (ground (arith, small)))
  | inr large ↦ rw large (
      mod-eq-sub-mod {n = a} {m = n} (ground (arith, large)) ∙ mod-eq_of_lt (ground (arith, large)))
]

-- A step of `d` to either side, no further than half way round, reaches what is at distance `d`.
either_side :
    (n i j d : ℕ)
    → i < n
    → j < n
    → 0 < d
    → d + d ≤ n
    → (nat_eqb ((i + d) % n) j || nat_eqb (minus_mod i d n) j) ≡ nat_eqb (ring_distance n i j) d
unfolding minus_mod ring_distance
either_side n i j d hi hj hd fits =
    rw
      (
        mod_wrapped (i + d) n (omega arith),
        mod-eq_of_lt {n = d} {m = n} (omega arith),
        mod_wrapped (i + (n - d)) n (omega arith),
      )
      (ground arith)

pub contains-append :
    (xs ys : List String) (x : String) → contains (xs ++ ys) x ≡ (contains xs x || contains ys x)
unfolding contains
contains-append [] ys x = refl
contains-append (z ∷ xs) ys x = ground (arith, contains-append xs ys x)

contains-set_of : (xs : List String) (x : String) → contains (set_of xs) x ≡ contains xs x
unfolding set_of contains
contains-set_of [] x = refl
contains-set_of (y ∷ xs) x =
    contains-add y x (set_of xs) ∙ ap (λ b. y == x || b) (contains-set_of xs x)

length-set_of : (xs : List String) → length (set_of xs) ≤ length xs
unfolding set_of
length-set_of [] = omega arith
length-set_of (y ∷ xs) = omega (arith, length-add y (set_of xs), length-set_of xs)

take_all : (k : ℕ) (xs : List String) → length xs ≤ k → take k xs ≡ xs
take_all zero [] h = refl
take_all zero (x ∷ xs) h = absurd (omega arith)
take_all (suc k) [] h = refl
take_all (suc k) (x ∷ xs) h = ap (λ ys. x ∷ ys) (take_all k xs (omega arith))

-- The nodes that the topology links: those at a distance of 1 to `k / 2` either way, and, where `k`
-- is odd, the one that is `k / 2 + 1` steps ahead.
unfoldable pub ring_links : ℕ → ℕ → ℕ → ℕ → Bool
unfolding ring_distance
ring_links n k i j =
    leb 1 (ring_distance n i j) && leb (ring_distance n i j) (k / 2)
    || nat_eqb (k % 2) 1 && nat_eqb ((i + (k / 2 + 1)) % n) j

-- One more round, as a statement about its tests.
round_step :
    (distance m half : ℕ) (odd ahead old new : Bool)
    → old
      ≡ (leb 1 distance && leb distance m && leb distance half || odd && leb (half + 1) m && ahead)
    → new ≡ (
        if leb (suc m) half
        then nat_eqb distance (suc m)
        else odd && nat_eqb (suc m) (half + 1) && ahead)
    → (old || new) ≡ (
        leb 1 distance && leb distance (suc m) && leb distance half
        || odd && leb (half + 1) (suc m) && ahead)
round_step distance m half odd ahead old new e f = elim (Bool-cases (leb (suc m) half)) [
  | inl near ↦ ground arith
  | inr far ↦ ground arith
]

module _ (node_name : ℕ → String) (injective : (i j : ℕ) → node_name i ≡ node_name j → i ≡ j) where
  pub same_name : (i j : ℕ) → (node_name i == node_name j) ≡ nat_eqb i j
  same_name i j = elim (Bool-cases (node_name i == node_name j)) [
    | inl same ↦
        ground (arith, injective i j ((eq_string.sound (node_name i) (node_name j)).0 same))
    | inr other ↦ elim (Bool-cases (nat_eqb i j)) [
      | inl equal ↦ ground (
        arith,
        (eq_string.sound (node_name i) (node_name j)).1 (ap node_name ((nat_eqb_iff i j).0 equal)),
      )
      | inr unequal ↦ other ∙ sym unequal
    ]
  ]

  -- what a round of the loop links
  contains-append_round :
      (n k i j d : ℕ)
      → k < n
      → i < n
      → j < n
      → 0 < d
      → contains (append_round node_name n k i d) (node_name j) ≡ (
          if leb d (k / 2)
          then nat_eqb (ring_distance n i j) d
          else nat_eqb (k % 2) 1 && nat_eqb d (k / 2 + 1) && nat_eqb ((i + (k / 2 + 1)) % n) j)
  unfolding append_round contains
  contains-append_round n k i j d hk hi hj hd = elim (Bool-cases (leb d (k / 2))) [
    | inl near ↦
        rw (near, same_name ((i + d) % n) j, same_name (minus_mod i d n) j)
          (ground (arith, either_side n i j d hi hj hd (ground (arith, near))))
    | inr far ↦ elim (Bool-cases (nat_eqb d (k / 2 + 1))) [
      | inl last ↦
          rw (far, ap (λ x. nat_eqb ((i + x) % n) j) (sym ((nat_eqb_iff d (k / 2 + 1)).0 last)))
            (ground (arith, same_name ((i + d) % n) j))
      | inr beyond ↦ rw (far, beyond) (ground arith)
    ]
  ]

  contains-node_neighbours :
      (n k i j m : ℕ)
      → k < n
      → i < n
      → j < n
      → contains (node_neighbours node_name n k i m) (node_name j) ≡ (
          leb 1 (ring_distance n i j)
            && leb (ring_distance n i j) m
            && leb (ring_distance n i j) (k / 2)
          || nat_eqb (k % 2) 1 && leb (k / 2 + 1) m && nat_eqb ((i + (k / 2 + 1)) % n) j)
  unfolding node_neighbours contains
  contains-node_neighbours n k i j zero hk hi hj = ground arith
  contains-node_neighbours n k i j (suc m) hk hi hj =
      contains-append (node_neighbours node_name n k i m) (append_round node_name n k i (suc m))
        (node_name j)
      ∙ round_step (ring_distance n i j) m (k / 2) (nat_eqb (k % 2) 1)
          (nat_eqb ((i + (k / 2 + 1)) % n) j) _ _ (contains-node_neighbours n k i j m hk hi hj)
          (contains-append_round n k i j (suc m) hk hi hj (omega arith))

  length-node_neighbours :
      (n k i m : ℕ)
      → length (node_neighbours node_name n k i m)
        ≤ (if leb m (k / 2) then m + m else k / 2 + k / 2 + k % 2)
  unfolding node_neighbours append_round
  length-node_neighbours n k i zero = ground arith
  length-node_neighbours n k i (suc m) = ground (
    arith,
    length-append (node_neighbours node_name n k i m) (append_round node_name n k i (suc m)),
    length-node_neighbours n k i m,
  )

  pub rounds_lem :
      (n k i m : ℕ)
      → i < m
      → get (rounds node_name n k m) (node_name i) ≡ some (neighbours_of node_name n k i)
  unfolding rounds
  rounds_lem n k i zero h = absurd (omega arith)
  rounds_lem n k i (suc m) h = elim (Bool-cases (nat_eqb i m)) [
    | inl last ↦
        subst
          (λ x.
            get (put (rounds node_name n k m) (node_name m) (neighbours_of node_name n k m))
              (node_name x)
            ≡ some (neighbours_of node_name n k x))
          (sym ((nat_eqb_iff i m).0 last)) (get-put_same (rounds node_name n k m) (node_name m) _)
    | inr earlier ↦
        get-put_other (rounds node_name n k m) (node_name m) (node_name i) _
          (same_name m i ∙ ground (arith, earlier))
        ∙ rounds_lem n k i m (ground (arith, earlier, h))
  ]

  pub neighbours_of-ring_links :
      (n k i j : ℕ)
      → k < n
      → i < n
      → j < n
      → (length (neighbours_of node_name n k i) ≤ k)
        × (contains (neighbours_of node_name n k i) (node_name j) ≡ ring_links n k i j)
  unfolding ring_links neighbours_of
  neighbours_of-ring_links n k i j hk hi hj =
      let linked = node_neighbours node_name n k i k in
      let short : length (set_of linked) ≤ k =
        ground (arith, length-set_of linked, length-node_neighbours n k i k) in
      let whole = take_all k (set_of linked) short in
      (
        subst (λ (xs : List String). length xs ≤ k) (sym whole) short,
        ap (λ (xs : List String). contains xs (node_name j)) whole
            ∙ contains-set_of linked (node_name j)
            ∙ contains-node_neighbours n k i j k hk hi hj
            ∙ all_rounds (ring_distance n i j) k (nat_eqb ((i + (k / 2 + 1)) % n) j),
      )
    where
      all_rounds :
          (distance k : ℕ) (ahead : Bool)
          → (leb 1 distance && leb distance k && leb distance (k / 2)
              || nat_eqb (k % 2) 1 && leb (k / 2 + 1) k && ahead)
            ≡ (leb 1 distance && leb distance (k / 2) || nat_eqb (k % 2) 1 && ahead)
      all_rounds distance k ahead = ground arith

  -- In the ring topology of `n` nodes with `k` below `n`, where the nodes' names differ, every node has
  -- an entry of at most `k` names, which are those of exactly the nodes at most `k / 2` steps away on
  -- either side and, where `k` is odd, of the one `k / 2 + 1` steps ahead: nothing is lost where
  -- the code cuts the list to `k`.
  pub generate_ring_topology-ring_links :
      (n k i j : ℕ)
      → k < n
      → i < n
      → j < n
      → (ns : List String) × (get (generate_ring_topology node_name n k) (node_name i) ≡ some ns)
        × (length ns ≤ k)
        × (contains ns (node_name j) ≡ ring_links n k i j)
  unfolding generate_ring_topology
  generate_ring_topology-ring_links n k i j hk hi hj =
      let (short, exact) = neighbours_of-ring_links n k i j hk hi hj in
      (neighbours_of node_name n k i, rounds_lem n k i n hi, short, exact)
