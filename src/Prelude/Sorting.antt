-- ===== src/Prelude/Sorting.antt =====
-- Python's `sorted` on strings, by code points, and `list.index`.
use Prim.Native.Nat.{ℕ, zero, suc, ◌<◌, Ordering}
use Prim.Native.String.{String, compare}
use mathlib.Core.Path.{◌≡◌, refl}
use mathlib.Core.Bool.{Bool, true, false, ◌||◌}
use mathlib.Core.List.{List, [], ◌∷◌}
use mathlib.Core.Option.{some}
use native.Mathlib.Omega.{arith}
use distributed_algo.Prelude.Tests.{eq_string, ◌==◌, if◌then◌else◌}
use distributed_algo.Prelude.Lists.{length, get_elem?}
use distributed_algo.Prelude.Sets.{contains}
use distributed_algo.Prelude.Results.{Result, ok, raises, value_error}

abbrev pub str_leb : String → String → Bool
str_leb s t = elim (compare s t) [ Ordering.gt ↦ false | _ ↦ true ]

unfoldable pub insert_sorted : String → List String → List String
insert_sorted a [] = a ∷ []
insert_sorted a (x ∷ xs) =
    let rest = insert_sorted a xs in if str_leb a x then a ∷ x ∷ xs else x ∷ rest

unfoldable pub sorted : List String → List String
unfolding insert_sorted
sorted [] = []
sorted (x ∷ xs) = insert_sorted x (sorted xs)

-- `xs.index(a)`
unfoldable pub index_of : List String → String → Result ℕ
index_of [] a = raises value_error
index_of (x ∷ xs) a =
    let later = index_of xs a in
    if x == a then ok 0 else (elim later [ ok i ↦ ok (suc i) | raises e ↦ raises e ])

length-insert : (a : String) (xs : List String) → length (insert_sorted a xs) ≡ suc (length xs)
unfolding insert_sorted
length-insert a [] = refl
length-insert a (x ∷ xs) = ground (arith, length-insert a xs)

pub length-sorted : (xs : List String) → length (sorted xs) ≡ length xs
unfolding sorted
length-sorted [] = refl
length-sorted (x ∷ xs) = omega (arith, length-insert x (sorted xs), length-sorted xs)

pub contains-insert :
    (a b : String) (xs : List String) → contains (insert_sorted a xs) b ≡ (a == b || contains xs b)
unfolding insert_sorted contains
contains-insert a b [] = refl
contains-insert a b (x ∷ xs) = ground (arith, contains-insert a b xs)

pub contains-sorted : (xs : List String) (b : String) → contains (sorted xs) b ≡ contains xs b
unfolding sorted contains
contains-sorted [] b = refl
contains-sorted (x ∷ xs) b = ground (arith, contains-insert x b (sorted xs), contains-sorted xs b)

-- A position inside the list holds an element of it.
pub get_elem-inside :
    (xs : List String) (i : ℕ)
    → i < length xs
    → (x : String) × (get_elem? xs i ≡ some x) × (contains xs x ≡ true)
unfolding contains
get_elem-inside [] i h = absurd (omega arith)
get_elem-inside (x ∷ xs) zero h = (x, refl, ground (arith, eq_string.sound x x))
get_elem-inside (x ∷ xs) (suc i) h =
    let (y, e, m) = get_elem-inside xs i (omega arith) in (y, e, ground arith)
