-- ===== src/Prelude/Sets.antt =====
-- Python's `set`, as a list without repetitions; the program never observes the order.
use Prim.Native.Nat.{◌+◌, ◌≤◌, ◌<◌}
use mathlib.Core.Path.{◌≡◌, refl}
use mathlib.Core.Logic.{inl, inr}
use mathlib.Core.Bool.{Bool, true, false, ◌||◌}
use mathlib.Core.List.{List, [], ◌∷◌, ◌++◌}
use native.Mathlib.Omega.{arith}
use distributed_algo.Prelude.Tests.{Eq, ◌==◌, Bool-cases, if◌then◌else◌}
use distributed_algo.Prelude.Lists.{length}

module _ {ℓ} {A : Type ℓ} ⦃e : Eq A⦄ where
  -- `a in xs`
  unfoldable pub contains : List A → A → Bool
  contains [] a = false
  contains (x ∷ xs) a = x == a || contains xs a

  -- `s.add(a)`
  unfoldable pub add : A → List A → List A
  unfolding contains
  add a s = if contains s a then s else a ∷ s

  unfoldable pub erase : A → List A → List A
  erase a [] = []
  erase a (x ∷ xs) = let rest = erase a xs in if x == a then xs else x ∷ rest

  -- no element occurs twice
  unfoldable pub IsDistinct : List A → Type 0
  unfolding contains
  IsDistinct [] = Unit
  IsDistinct (x ∷ xs) = (contains xs x ≡ false) × IsDistinct xs

  pub contains-add : (a b : A) (s : List A) → contains (add a s) b ≡ (a == b || contains s b)
  unfolding add contains
  contains-add a b s = elim (Bool-cases (contains s a)) [
    | inl old ↦ ground (arith, e.sound a b)
    | inr new ↦ ground arith
  ]

  pub IsDistinct-add : (a : A) (s : List A) → IsDistinct s → IsDistinct (add a s)
  unfolding add IsDistinct
  IsDistinct-add a s d = ground arith

  pub length-add :
      (a : A) (s : List A) → (length s ≤ length (add a s)) × (length (add a s) ≤ length s + 1)
  unfolding add
  length-add a s = ground arith

  pub length-add_new : (a : A) (s : List A) → contains s a ≡ false → length (add a s) ≡ length s + 1
  unfolding add
  length-add_new a s h = ground arith

  length-erase : (a : A) (s : List A) → contains s a ≡ true → length (erase a s) + 1 ≡ length s
  unfolding erase contains
  length-erase a [] h = ground arith
  length-erase a (x ∷ xs) h = ground (arith, length-erase a xs)

  contains-erase : (a b : A) (s : List A) → (a == b) ≡ false → contains (erase a s) b ≡ contains s b
  unfolding erase contains
  contains-erase a b [] h = refl
  contains-erase a b (x ∷ xs) h =
      ground (arith, contains-erase a b xs, e.sound x a, e.sound x b, e.sound a b)

  -- Pigeonhole: a set larger than a list has an element outside of it.
  pub outside :
      (s t : List A)
      → IsDistinct s
      → length t < length s
      → (x : A) × (contains s x ≡ true) × (contains t x ≡ false)
  unfolding contains IsDistinct
  outside [] t d h = absurd (omega arith)
  outside (x ∷ xs) t d h = elim (Bool-cases (contains t x)) [
    | inr fresh ↦ (x, ground (arith, e.sound x x), fresh)
    | inl taken ↦
        let (y, inside, away) =
          outside xs (erase x t) d.1 (omega (arith, length-erase x t taken)) in
        (y, ground arith, ground (arith, contains-erase x y t, e.sound x y))
  ]

  pub contains-append_none :
      (xs ys : List A) (x : A)
      → contains (xs ++ ys) x ≡ false
      → (contains xs x ≡ false) × (contains ys x ≡ false)
  unfolding contains
  contains-append_none [] ys x h = (refl, h)
  contains-append_none (z ∷ xs) ys x h = ground (arith, contains-append_none xs ys x)
