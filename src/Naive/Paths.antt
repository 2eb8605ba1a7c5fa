-- ===== src/Naive/Paths.antt =====
-- distbench-py/distbench/algorithms/dolev_naive.py, `distPaths`: a path is taken if it shares no
-- node with those taken before, until there are f + 1.
use distributed_algo.Prelude.{
  ℕ, ◌+◌, ◌≤◌, ◌<◌, String, List, [], ◌∷◌, Bool, true, false, not, ◌&&◌, ◌≡◌, refl, arith, inl, inr,
  eq_string, ◌==◌, contains, all, keep, length, leb, leb→le, Bool-cases, if-cases, if-true, subst,
  All, All-Among, if◌then◌else◌, Among,
}

-- `set(path)` without the source and the node itself; a set is only asked for its members
unfoldable pub internal : String → String → List String → List String
internal source me path = keep (λ n. not (n == source) && not (n == me)) path

-- `not (xs & ys)`
unfoldable pub disjoint : List String → List String → Bool
disjoint xs ys = all (λ x. not (contains ys x)) xs

unfoldable pub disjoint_of_all : List String → List (List String) → Bool
unfolding disjoint
disjoint_of_all xs chosen = all (λ used. disjoint xs used) chosen

-- the loop, with what it has chosen
unfoldable pub choose : ℕ → String → String → List (List String) → List (List String) → Bool
unfolding internal disjoint_of_all
choose needed source me [] chosen = false
choose needed source me (path ∷ paths) chosen =
    let nodes = internal source me path in
    let skip = choose needed source me paths chosen in
    let next = choose needed source me paths (nodes ∷ chosen) in
    if not (disjoint_of_all nodes chosen)
    then skip
    else if leb needed (length (nodes ∷ chosen))
    then true
    else next

unfoldable pub dist_paths : ℕ → String → List (List String) → String → Bool
unfolding choose
dist_paths f me paths source = choose (f + 1) source me paths []

-- each two of the sets are disjoint
abbrev Disjoint : List (List String) → Type 0
Disjoint [] = Unit
Disjoint (s ∷ ss) = (disjoint_of_all s ss ≡ true) × Disjoint ss

-- the path has none of the nodes `bad` between the source and the node
abbrev pub Avoids : String → String → List String → List String → Type 0
Avoids source me bad path = disjoint bad (internal source me path) ≡ true

disjoint-contains :
    (xs ys : List String) (b : String)
    → disjoint xs ys ≡ true
    → contains xs b ≡ true
    → contains ys b ≡ false
unfolding disjoint contains
disjoint-contains [] ys b d h = absurd (ground arith)
disjoint-contains (x ∷ xs) ys b d h = ground (arith, disjoint-contains xs ys b, eq_string.sound x b)

-- no set of a family that is disjoint from one with `b` has `b`
none_has :
    (s : List String) (ss : List (List String)) (b : String)
    → contains s b ≡ true
    → disjoint_of_all s ss ≡ true
    → all (λ t. not (contains t b)) ss ≡ true
unfolding disjoint_of_all
none_has s [] b h d = refl
none_has s (t ∷ ss) b h d = ground (arith, disjoint-contains s t b, none_has s ss b)

keep-all : {A : Type 0} (p : A → Bool) (xs : List A) → all p xs ≡ true → keep p xs ≡ xs
keep-all p [] h = refl
keep-all p (x ∷ xs) h = ground (arith, keep-all p xs)

-- In a disjoint family at most one set has the node `b`.
length-without :
    (ss : List (List String)) (b : String)
    → Disjoint ss
    → length ss ≤ length (keep (λ t. not (contains t b)) ss) + 1
length-without [] b d = omega arith
length-without (s ∷ ss) b d = elim (Bool-cases (contains s b)) [
  | inl h ↦ rw (h, keep-all (λ t. not (contains t b)) ss (none_has s ss b h d.0)) (omega arith)
  | inr h ↦ ground (arith, length-without ss b d.1)
]

disjoint-keep :
    (s : List String) (p : List String → Bool) (ss : List (List String))
    → disjoint_of_all s ss ≡ true
    → disjoint_of_all s (keep p ss) ≡ true
unfolding disjoint_of_all
disjoint-keep s p [] d = d
disjoint-keep s p (t ∷ ss) d = ground (arith, disjoint-keep s p ss)

keep-Disjoint :
    (p : List String → Bool) (ss : List (List String)) → Disjoint ss → Disjoint (keep p ss)
keep-Disjoint p [] d = d
keep-Disjoint p (s ∷ ss) d =
    if-cases Disjoint (p s) (λ h. (disjoint-keep s p ss d.0, keep-Disjoint p ss d.1))
      (λ h. keep-Disjoint p ss d.1)

Among-keep :
    {A : Type 0} (p : A → Bool) (a : A) (xs : List A)
    → Among a (keep p xs)
    → Among a xs × (p a ≡ true)
Among-keep p a [] m = absurd m
Among-keep p a (x ∷ xs) m = elim (Bool-cases (p x)) [
  | inl h ↦ elim (subst (Among a) (if-true (x ∷ keep p xs) (keep p xs) h) m) [
    | inl e ↦ (inl e, rw (← e) h)
    | inr r ↦ let (i, q) = Among-keep p a xs r in (inr i, q)
  ]
  | inr h ↦ let (i, q) = Among-keep p a xs (rw h at m) in (inr i, q)
]

-- More disjoint sets than bad nodes: some set has none of them.
avoider :
    (bad : List String) (ss : List (List String))
    → Disjoint ss
    → length bad < length ss
    → (s : List String) × Among s ss × (disjoint bad s ≡ true)
unfolding disjoint
avoider [] [] d h = absurd (omega arith)
avoider [] (s ∷ ss) d h = (s, inl refl, refl)
avoider (b ∷ bad) ss d h =
    let p : List String → Bool = λ t. not (contains t b) in
    let (s, m, q) =
      avoider bad (keep p ss) (keep-Disjoint p ss d) (omega (arith, length-without ss b d)) in
    let (i, r) = Among-keep p s ss m in (s, i, ground arith)

-- The node sets that are chosen are those of recorded paths.
module _ (source me : String) (recorded : List (List String)) where
  abbrev IsInner : List String → Type 0
  IsInner s = (path : List String) × Among path recorded × (internal source me path ≡ s)

  choose_sound :
      (needed : ℕ) (paths chosen : List (List String))
      → ((path : List String) → Among path paths → Among path recorded)
      → Disjoint chosen
      → All IsInner chosen
      → choose needed source me paths chosen ≡ true
      → (ss : List (List String)) × Disjoint ss × All IsInner ss × (needed ≤ length ss)
  unfolding choose
  choose_sound needed [] chosen sub d inner h = absurd (ground arith)
  choose_sound needed (path ∷ paths) chosen sub d inner h =
      let nodes = internal source me path in
      let later : (p : List String) → Among p paths → Among p recorded = λ p m. sub p (inr m) in
      elim (Bool-cases (disjoint_of_all nodes chosen)) [
        | inr meets ↦ choose_sound needed paths chosen later d inner (rw meets at h)
        | inl apart ↦ elim (Bool-cases (leb needed (length (nodes ∷ chosen)))) [
          | inl enough ↦ (
            nodes ∷ chosen,
            (apart, d),
            ((path, sub path (inl refl), refl), inner),
            leb→le _ _ enough,
          )
          | inr few ↦
              choose_sound needed paths (nodes ∷ chosen) later (apart, d)
                ((path, sub path (inl refl), refl), inner) (rw (apart, few) at h)
        ]
      ]

-- If the paths suffice for a source, then whichever f nodes are bad, some recorded path has none of
-- them between the source and the node.
pub dist_paths-Avoids :
    (f : ℕ) (me source : String) (paths : List (List String)) (bad : List String)
    → dist_paths f me paths source ≡ true
    → length bad ≤ f
    → (path : List String) × Among path paths × Avoids source me bad path
unfolding dist_paths
dist_paths-Avoids f me source paths bad h few =
    let (ss, d, inner, enough) = choose_sound source me paths (f + 1) paths [] (λ p m. m) tt tt h in
    let (s, m, q) = avoider bad ss d (omega arith) in
    let (path, i, e) = All-Among (IsInner source me paths) ss s inner m in (path, i, rw e q)
