-- ===== src/Launch/Placed.antt =====
-- distbench-py/distbench/main.py: in `run_local` every node serves at the socket that the others
-- dial for it.
use distributed_algo.Prelude.{
  ℕ, zero, suc, ◌+◌, String, List, [], ◌∷◌, Bool, true, false, Option, none, some, if◌then◌else◌,
  Dict, get, get-index, contains, contains-sorted, IsDistinct, length, get_elem?, sorted, All,
  All-map, IfOk-map, ◌≡◌, refl, sym, ap, subst, ◌∙◌, arith, inl, inr, ◌==◌, eq_string, eq_nat,
  Bool-cases, leb, ==_refl, Result, ok, raises, Returns, IfOk, bind-IfOk, IfOk-any,
}
use distributed_algo.Transport.Local.{wire, inner}
use distributed_algo.Launch.Config.{Loaded, load_config, keys}
use distributed_algo.Launch.Mappings.{
  Mappings, build_tcp_mappings, socket_address, Numbered, EachNumbered,
  build_tcp_mappings-EachNumbered,
}
use distributed_algo.Framework.Community
use distributed_algo.Framework.Community.{open_connections}
use distributed_algo.Launch.Nodes.{
  get_format, Registry, make_algorithm, other_addresses, community_of,
}
use distributed_algo.Launch.Tcp.{
  TcpTransport, init_transport, TcpNode, make_node, make_nodes, run_local,
}

-- a listed node has a position, which is its number
find_number :
    (port_base : ℕ) (xs : List String) (k : ℕ) (s : String) (m : Mappings)
    → EachNumbered port_base true k xs m
    → contains xs s ≡ true
    → (i : ℕ) × (get_elem? xs i ≡ some s) × Numbered port_base true (k + i) s m
unfolding contains
find_number port_base [] k s m h member = absurd (ground arith)
find_number port_base (x ∷ xs) k s m (n, h) member = elim (Bool-cases (x == s)) [
  | inl same ↦
      let e : x ≡ s = (eq_string.sound x s).0 same in
      (
        zero,
        ap some e,
        subst (λ j. Numbered port_base true j s m) (omega arith)
            (subst (λ y. Numbered port_base true k y m) e n),
      )
  | inr other ↦
      let (i, at, found) = find_number port_base xs (k + 1) s m h (ground arith) in
      (suc i, at, subst (λ j. Numbered port_base true j s m) (omega arith) found)
]

inner-wire : {T : Type 0} (latency : ℕ × ℕ) (t : T) → inner (wire latency t) ≡ t
unfolding inner wire
inner-wire latency t = ground arith

own_members : (xs : List String) → All (λ s. contains xs s ≡ true) xs
unfolding contains
own_members [] = tt
own_members (x ∷ xs) = (
  ground (arith, ==_refl x),
  All-map (λ s. contains xs s ≡ true) _ xs (λ s h. ground (arith, h)) (own_members xs),
)

Returns-IfOk : {A : Type 0} (P : A → Type 0) (r : Result A) → Returns r P → IfOk P r
Returns-IfOk P (ok a) h = h
Returns-IfOk P (raises x) h = tt

build-IfOk :
    (port_base : ℕ) (ids : List String)
    → IsDistinct ids
    → IfOk (EachNumbered port_base true 0 (sorted ids)) (build_tcp_mappings port_base true ids)
build-IfOk port_base ids d = elim (Bool-cases (leb (length ids) 65536)) [
  | inl fit ↦
      Returns-IfOk (EachNumbered port_base true 0 (sorted ids))
        (build_tcp_mappings port_base true ids)
        (rw fit at (build_tcp_mappings-EachNumbered port_base true ids d))
  | inr over ↦
      subst (IfOk (EachNumbered port_base true 0 (sorted ids)))
        (sym (rw over at (build_tcp_mappings-EachNumbered port_base true ids d))) tt
]

-- the manager for an address, if there is one
abbrev pub managed : {M : Type 0} → (ℕ → M) → Option ℕ → Option M
managed manager none = none
managed manager (some i) = some (manager i)

get-open_connections :
    {M : Type 0} (manager : ℕ → M) (addresses : Dict String ℕ) (p : String)
    → get (open_connections manager addresses) p ≡ managed manager (get addresses p)
unfolding get open_connections
get-open_connections manager [] p = refl
get-open_connections manager ((q, a) ∷ addresses) p = elim (Bool-cases (q == p)) [
  | inl same ↦ rw same refl
  | inr other ↦ rw other (get-open_connections manager addresses p)
]

get-other_addresses :
    (s : String) (addresses : Dict String ℕ) (p : String)
    → get (other_addresses s addresses) p ≡ (if p == s then none else get addresses p)
unfolding get other_addresses
get-other_addresses s [] p = ground arith
get-other_addresses s ((q, a) ∷ addresses) p = ground (
  arith,
  get-other_addresses s addresses p,
  eq_string.sound q s,
  eq_string.sound q p,
  eq_string.sound p s,
)

-- The node of an entry: its number is the position of its id, it knows all sockets, it serves at
-- its own, which is the port base and its number, and this is the socket of its number; it has a
-- connection manager for the number of each other id and for nothing else.
pub record At {M G : Type 0} (manager : ℕ → M) (port_base : ℕ) (ids : List String) (m : Mappings)
    (s : String) (n : TcpNode M G) : Type 0 where
  pub named : n.node_id ≡ s
  pub position : get_elem? (sorted ids) (inner n.transport).local_numeric_id ≡ some s
  pub knows : (inner n.transport).all_peer_sockets ≡ m.all_peer_sockets
  pub serves :
      (inner n.transport).bind_addr
      ≡ record { host = "127.0.0.1"; port = port_base + (inner n.transport).local_numeric_id }
  pub dialled :
      get m.all_peer_sockets (inner n.transport).local_numeric_id
      ≡ some (inner n.transport).bind_addr
  pub dials :
      (p : String)
      → get n.community.connections p
        ≡ (if p == s then none else managed manager (get m.peer_id_to_numeric_addr p))

abbrev pub EachAt :
    {V M G : Type 0}
    → (manager : ℕ → M) → (port_base : ℕ) → (ids : List String) → Mappings
    → Dict String (Dict String V)
    → List (TcpNode M G)
    → Type 0
EachAt manager port_base ids m [] [] = Unit
EachAt manager port_base ids m [] (n ∷ ns) = ⊥
EachAt manager port_base ids m ((s, c) ∷ config) [] = ⊥
EachAt manager port_base ids m ((s, c) ∷ config) (n ∷ ns) =
    At manager port_base ids m s n × EachAt manager port_base ids m config ns

module _ {V M G : Type 0} (registry : Registry V G) (manager : ℕ → M) (names : V → List String)
    (algorithm_name : String) (latency : ℕ × ℕ) (port_base : ℕ) where
  launched-At :
      (ids : List String) (m : Mappings) (s : String) (i : ℕ) (n : TcpNode M G)
      → n.node_id ≡ s
      → inner n.transport ≡ record {
        local_numeric_id = i;
        all_peer_sockets = m.all_peer_sockets;
        bind_addr = socket_address true port_base i s;
      }
      → get_elem? (sorted ids) i ≡ some s
      → get m.all_peer_sockets i ≡ some (socket_address true port_base i s)
      → ((p : String)
          → get n.community.connections p
            ≡ (if p == s then none else managed manager (get m.peer_id_to_numeric_addr p)))
      → At manager port_base ids m s n
  unfolding socket_address
  launched-At ids m s i n named e at socket dials =
      let number : (inner n.transport).local_numeric_id ≡ i =
        ap (λ (t : TcpTransport). t.local_numeric_id) e in
      let bound : (inner n.transport).bind_addr
          ≡ record { host = "127.0.0.1"; port = port_base + i } =
        ap (λ (t : TcpTransport). t.bind_addr) e in
      record {
        named = named;
        position = rw number at;
        knows = ap (λ (t : TcpTransport). t.all_peer_sockets) e;
        serves =
            bound
            ∙ ap (λ (j : ℕ). record { host = "127.0.0.1"; port = port_base + j }) (sym number);
        dialled = rw (number, bound) socket;
        dials = dials;
      }

  managed_if :
      (b : Bool) (a : Option ℕ)
      → managed manager (if b then none else a) ≡ (if b then none else managed manager a)
  managed_if true a = refl
  managed_if false a = refl

  make_node-At :
      (ids : List String) (m : Mappings) (s : String) (c : Dict String V)
      → contains ids s ≡ true
      → EachNumbered port_base true 0 (sorted ids) m
      → IfOk
          (At manager port_base ids m s)
          (make_node registry manager names algorithm_name latency port_base ids m s c)
  unfolding make_node init_transport community_of Community.init
  make_node-At ids m s c member numbered =
      let (i, at, found) =
        find_number port_base (sorted ids) 0 s m numbered (contains-sorted ids s ∙ member) in
      let n : Numbered port_base true i s m =
        subst (λ j. Numbered port_base true j s m) (omega arith) found in
      rw
        (get-index m.peer_id_to_numeric_addr s i n.by_id, get-index m.all_peer_sockets i _ n.socket)
        (bind-IfOk _ _ (make_algorithm registry algorithm_name c) _ (IfOk-any _) (λ g _.
          launched-At ids m s i _ refl (inner-wire latency _) at n.socket (λ p.
            get-open_connections manager (other_addresses s m.peer_id_to_numeric_addr) p
            ∙ ap (managed manager) (get-other_addresses s m.peer_id_to_numeric_addr p)
            ∙ managed_if (p == s) (get m.peer_id_to_numeric_addr p))))

  make_nodes-EachAt :
      (ids : List String) (m : Mappings) (config : Dict String (Dict String V))
      → All (λ s. contains ids s ≡ true) (keys config)
      → EachNumbered port_base true 0 (sorted ids) m
      → IfOk
          (EachAt manager port_base ids m config)
          (make_nodes registry manager names algorithm_name latency port_base ids m config)
  unfolding make_nodes keys
  make_nodes-EachAt ids m [] members numbered = tt
  make_nodes-EachAt ids m ((s, c) ∷ config) (member, members) numbered =
      bind-IfOk _ _ (make_node registry manager names algorithm_name latency port_base ids m s c) _
        (make_node-At ids m s c member numbered)
        (λ n at.
          bind-IfOk _ _
            (make_nodes registry manager names algorithm_name latency port_base ids m config) _
            (make_nodes-EachAt ids m config members numbered) (λ ns rest. (at, rest)))

  -- If `run_local` makes its nodes, from a file with distinct ids, then there is one for each entry,
  -- in order, and one table of sockets that they all know: each node's number is the position of
  -- its id among the sorted ids, it serves at the local host and the port base plus its number, and
  -- this is the socket that the table has for its number. The numbering is that of the sorted ids,
  -- and every node has a connection manager for the number of every other id, and no further one.
  pub run_local-EachAt :
      (loaded : Loaded (Dict String V)) (config : Dict String (Dict String V))
      (format_name : String)
      → load_config loaded ≡ ok config
      → IsDistinct (keys config)
      → IfOk
          (λ nodes.
            (m : Mappings) × EachNumbered port_base true 0 (sorted (keys config)) m
            × EachAt manager port_base (keys config) m config nodes)
          (run_local registry manager names algorithm_name latency port_base loaded format_name)
  unfolding run_local
  run_local-EachAt loaded config format_name e d = rw e (
      bind-IfOk _ _ (get_format format_name) _ (IfOk-any _) (λ f _.
        bind-IfOk _ _ (build_tcp_mappings port_base true (keys config)) _
          (build-IfOk port_base (keys config) d)
          (λ m numbered.
            IfOk-map _ _
              (make_nodes registry manager names algorithm_name latency port_base _ m config)
              (λ nodes each. (m, numbered, each))
              (make_nodes-EachAt (keys config) m config (own_members (keys config)) numbered))))
