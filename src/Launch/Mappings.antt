-- ===== src/Launch/Mappings.antt =====
-- distbench-py/distbench/main.py: `build_tcp_mappings`, the numbers and sockets of the nodes.
use distributed_algo.Prelude.{
  ℕ, ◌+◌, ◌≤◌, ◌<◌, String, List, [], ◌∷◌, Bool, true, false, some, Dict, get, put, contains,
  IsDistinct, length, sorted, length-sorted, insert_sorted, contains-sorted, ◌≡◌, refl, subst, ◌∙◌,
  contains-insert, leb, get-put_same, get-put_other, arith, ◌==◌, eq_string, eq_nat, nat_eqb, ltb,
  if◌then◌else◌, Bool-cases, inl, inr, Result, ok, raises, value_error, Returns, ==_sym,
}
use distributed_algo.Transport.Connection.{SocketAddress}

ok_same : {A : Type 0} (x y : A) → ok x ≡ ok y → x ≡ y
ok_same x y e = cc

-- the three dictionaries; a `TcpAddress` is its number
pub record Mappings : Type 0 where
  pub all_peer_sockets : Dict ℕ SocketAddress
  pub all_peer_ids : Dict ℕ String
  pub peer_id_to_numeric_addr : Dict String ℕ

abbrev pub no_mappings : Mappings
no_mappings = record { all_peer_sockets = []; all_peer_ids = []; peer_id_to_numeric_addr = [] }

unfoldable pub socket_address : (is_local : Bool) → (port_base : ℕ) → ℕ → String → SocketAddress
socket_address true port_base i node_id = record { host = "127.0.0.1"; port = port_base + i }
socket_address false port_base i node_id = record { host = node_id; port = port_base }

module _ (port_base : ℕ) (is_local : Bool) where
  -- the three assignments of a round
  unfoldable pub assign : ℕ → String → Mappings → Mappings
  unfolding socket_address
  assign i node_id m = record {
    all_peer_sockets = put m.all_peer_sockets i (socket_address is_local port_base i node_id);
    all_peer_ids = put m.all_peer_ids i node_id;
    peer_id_to_numeric_addr = put m.peer_id_to_numeric_addr node_id i;
  }

  -- the loop, from number `i` on
  unfoldable pub enumerate : ℕ → List String → Mappings → Result Mappings
  unfolding assign
  enumerate i [] m = ok m
  enumerate i (x ∷ xs) m =
      let rest = enumerate (i + 1) xs (assign i x m) in
      if ltb 65535 i then raises value_error else rest

  unfoldable pub build_tcp_mappings : (node_ids : List String) → Result Mappings
  unfolding enumerate
  build_tcp_mappings node_ids = enumerate 0 (sorted node_ids) no_mappings

  -- what the dictionaries have for the node with number `i`
  pub record Numbered (i : ℕ) (node_id : String) (m : Mappings) : Type 0 where
    pub by_id : get m.peer_id_to_numeric_addr node_id ≡ some i
    pub by_number : get m.all_peer_ids i ≡ some node_id
    pub socket : get m.all_peer_sockets i ≡ some (socket_address is_local port_base i node_id)

  enumerate_step :
      (i : ℕ) (x : String) (xs : List String) (m r : Mappings)
      → enumerate i (x ∷ xs) m ≡ ok r
      → enumerate (i + 1) xs (assign i x m) ≡ ok r
  unfolding enumerate
  enumerate_step i x xs m r e = ground arith

  -- A round keeps what stands for a smaller number and another id.
  assign-keeps :
      (i k : ℕ) (x node_id : String) (m : Mappings)
      → k < i
      → (x == node_id) ≡ false
      → Numbered k node_id m
      → Numbered k node_id (assign i x m)
  unfolding assign
  assign-keeps i k x node_id m h other n =
      let larger : nat_eqb i k ≡ false = ground (arith, h) in
      record {
        by_id = get-put_other m.peer_id_to_numeric_addr x node_id i other ∙ n.by_id;
        by_number = get-put_other m.all_peer_ids i k x larger ∙ n.by_number;
        socket = get-put_other m.all_peer_sockets i k _ larger ∙ n.socket;
      }

  enumerate-keeps :
      (xs : List String) (i k : ℕ) (node_id : String) (m r : Mappings)
      → enumerate i xs m ≡ ok r
      → k < i
      → contains xs node_id ≡ false
      → Numbered k node_id m
      → Numbered k node_id r
  unfolding contains
  enumerate-keeps [] i k node_id m r e h fresh n =
      unfold enumerate in subst (Numbered k node_id) (ok_same m r e) n
  enumerate-keeps (x ∷ xs) i k node_id m r e h fresh n =
      enumerate-keeps xs (i + 1) k node_id (assign i x m) r (enumerate_step i x xs m r e)
        (omega (arith, h)) (ground arith) (assign-keeps i k x node_id m h (ground arith) n)

  assign-Numbered : (i : ℕ) (x : String) (m : Mappings) → Numbered i x (assign i x m)
  unfolding assign
  assign-Numbered i x m = record {
    by_id = get-put_same m.peer_id_to_numeric_addr x i;
    by_number = get-put_same m.all_peer_ids i x;
    socket = get-put_same m.all_peer_sockets i _;
  }

  abbrev pub EachNumbered : ℕ → List String → Mappings → Type 0
  EachNumbered i [] m = Unit
  EachNumbered i (x ∷ xs) m = Numbered i x m × EachNumbered (i + 1) xs m

  enumerate-EachNumbered :
      (xs : List String) (i : ℕ) (m r : Mappings)
      → enumerate i xs m ≡ ok r
      → IsDistinct xs
      → EachNumbered i xs r
  unfolding IsDistinct
  enumerate-EachNumbered [] i m r e d = tt
  enumerate-EachNumbered (x ∷ xs) i m r e d =
      let rest = enumerate_step i x xs m r e in
      (
        enumerate-keeps xs (i + 1) i x (assign i x m) r rest (omega arith) d.0
            (assign-Numbered i x m),
        enumerate-EachNumbered xs (i + 1) (assign i x m) r rest d.1,
      )

  -- enough numbers for the nodes to come
  enumerate-IsOk :
      (xs : List String) (i : ℕ) (m : Mappings)
      → i + length xs ≤ 65536
      → (r : Mappings) × (enumerate i xs m ≡ ok r)
  unfolding enumerate
  enumerate-IsOk [] i m h = (m, refl)
  enumerate-IsOk (x ∷ xs) i m h =
      let (r, e) = enumerate-IsOk xs (i + 1) (assign i x m) (omega (arith, h)) in (r, ground arith)

  enumerate-raises :
      (xs : List String) (i : ℕ) (m : Mappings)
      → i ≤ 65536
      → 65536 < i + length xs
      → enumerate i xs m ≡ raises value_error
  unfolding enumerate
  enumerate-raises [] i m below h = absurd (omega arith)
  enumerate-raises (x ∷ xs) i m below h = elim (Bool-cases (ltb 65535 i)) [
    | inl last ↦ rw last refl
    | inr more ↦
        rw more (enumerate-raises xs (i + 1) (assign i x m) (ground arith) (omega (arith, h)))
  ]

IsDistinct-insert :
    (a : String) (xs : List String)
    → IsDistinct xs
    → contains xs a ≡ false
    → IsDistinct (insert_sorted a xs)
unfolding insert_sorted IsDistinct contains
IsDistinct-insert a [] d h = (refl, tt)
IsDistinct-insert a (x ∷ xs) d h =
    ground (arith, IsDistinct-insert a xs, contains-insert a x xs, ==_sym a x)

pub IsDistinct-sorted : (xs : List String) → IsDistinct xs → IsDistinct (sorted xs)
unfolding sorted IsDistinct
IsDistinct-sorted [] d = tt
IsDistinct-sorted (x ∷ xs) (fresh, d) =
    IsDistinct-insert x (sorted xs) (IsDistinct-sorted xs d) (contains-sorted xs x ∙ fresh)

-- Of up to 65536 nodes with distinct ids, the one at position `i` of the sorted ids has the number
-- `i`, in both directions, and the socket of that number; with more nodes `build_tcp_mappings`
-- raises a ValueError.
pub build_tcp_mappings-EachNumbered :
    (port_base : ℕ) (is_local : Bool) (node_ids : List String)
    → IsDistinct node_ids
    → if leb (length node_ids) 65536
      then Returns
          (build_tcp_mappings port_base is_local node_ids)
          (EachNumbered port_base is_local 0 (sorted node_ids))
      else build_tcp_mappings port_base is_local node_ids ≡ raises value_error
unfolding build_tcp_mappings
build_tcp_mappings-EachNumbered port_base is_local node_ids d =
    elim (Bool-cases (leb (length node_ids) 65536)) [
      | inl fit ↦
          let (m, e) =
            enumerate-IsOk port_base is_local (sorted node_ids) 0 no_mappings
              (ground (arith, length-sorted node_ids)) in
          rw (fit, e)
            (enumerate-EachNumbered port_base is_local (sorted node_ids) 0 no_mappings m e
              (IsDistinct-sorted node_ids d))
      | inr over ↦ rw over (
          enumerate-raises port_base is_local (sorted node_ids) 0 no_mappings (omega arith)
            (ground (arith, length-sorted node_ids)))
    ]
