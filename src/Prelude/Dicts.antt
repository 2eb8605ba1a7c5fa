-- ===== src/Prelude/Dicts.antt =====
-- Python's `dict`: an association list in insertion order, with `d[k]`, `d.get(k, v)` and `d[k] = v`.
use Prim.Native.Nat.{ℕ, suc}
use mathlib.Core.Path.{◌≡◌, refl, ◌∙◌}
use mathlib.Core.Bool.{Bool, true, false, ◌||◌}
use mathlib.Core.List.{List, [], ◌∷◌}
use mathlib.Core.Option.{Option, none, some}
use native.Mathlib.Omega.{arith}
use distributed_algo.Prelude.Tests.{Eq, ◌==◌, ==_refl, if-true, if◌then◌else◌}
use distributed_algo.Prelude.Results.{Result, ok, raises, key_error}

abbrev pub Dict {ℓ κ} : Type ℓ → Type κ → Type (ℓ ⊔ κ)
Dict K V = List (K × V)

module _ {ℓ κ} {K : Type ℓ} {V : Type κ} ⦃e : Eq K⦄ where
  -- `k in d`
  unfoldable pub has : Dict K V → K → Bool
  has [] k = false
  has ((j, v) ∷ d) k = j == k || has d k

  -- `d.get(k)`
  unfoldable pub get : Dict K V → K → Option V
  get [] k = none
  get ((j, v) ∷ d) k = if j == k then some v else get d k

  -- `d.get(k, v)`
  unfoldable pub get_or : Dict K V → K → V → V
  get_or [] k w = w
  get_or ((j, v) ∷ d) k w = if j == k then v else get_or d k w

  -- `d[k]`, which raises on a missing key
  unfoldable pub index : Dict K V → K → Result V
  index [] k = raises key_error
  index ((j, v) ∷ d) k = if j == k then ok v else index d k

  -- `d[k] = v`; a present key keeps its place
  unfoldable pub put : Dict K V → K → V → Dict K V
  put [] k w = (k, w) ∷ []
  put ((j, v) ∷ d) k w = if j == k then (j, w) ∷ d else (j, v) ∷ put d k w

  pub has-put : (d : Dict K V) (k j : K) (v : V) → has (put d k v) j ≡ (k == j || has d j)
  unfolding has put
  has-put [] k j v = refl
  has-put ((i, w) ∷ d) k j v =
      ground (arith, has-put d k j v, e.sound i k, e.sound i j, e.sound k j)

  pub get_or-put :
      (d : Dict K V) (k j : K) (v w : V)
      → get_or (put d k v) j w ≡ (if k == j then v else get_or d j w)
  unfolding get_or put
  get_or-put [] k j v w = refl
  get_or-put ((i, u) ∷ d) k j v w =
      ground (arith, get_or-put d k j v w, e.sound i k, e.sound i j, e.sound k j)

  pub get-put :
      (d : Dict K V) (k j : K) (v : V) → get (put d k v) j ≡ (if k == j then some v else get d j)
  unfolding get put
  get-put [] k j v = refl
  get-put ((i, u) ∷ d) k j v =
      ground (arith, get-put d k j v, e.sound i k, e.sound i j, e.sound k j)

  pub get-put_same : (d : Dict K V) (k : K) (v : V) → get (put d k v) k ≡ some v
  get-put_same d k v = get-put d k k v ∙ if-true (some v) (get d k) (==_refl k)

  pub get-put_other :
      (d : Dict K V) (k j : K) (v : V) → (k == j) ≡ false → get (put d k v) j ≡ get d j
  get-put_other d k j v h = ground (arith, get-put d k j v)

  pub index-has : (d : Dict K V) (k : K) (w : V) → has d k ≡ true → index d k ≡ ok (get_or d k w)
  unfolding has get_or index
  index-has [] k w h = ground arith
  index-has ((j, v) ∷ d) k w h = ground (arith, index-has d k w)

  pub get-has : (d : Dict K V) (k : K) (v : V) → get d k ≡ some v → has d k ≡ true
  unfolding has get
  get-has [] k v h = ground arith
  get-has ((j, w) ∷ d) k v h = ground (arith, get-has d k v)

  pub get-index : (d : Dict K V) (k : K) (v : V) → get d k ≡ some v → index d k ≡ ok v
  unfolding get index
  get-index [] k v h = ground arith
  get-index ((j, w) ∷ d) k v h = ground (arith, get-index d k v)

  pub get_or_absent : (d : Dict K V) (k : K) (w : V) → has d k ≡ false → get_or d k w ≡ w
  unfolding has get_or
  get_or_absent [] k w h = refl
  get_or_absent ((j, v) ∷ d) k w h = ground (arith, get_or_absent d k w)

-- `sum(1 for d in flags.values() if d)`
unfoldable pub count_true {ℓ} : {K : Type ℓ} → Dict K Bool → ℕ
count_true [] = 0
count_true ((k, b) ∷ d) = let rest = count_true d in if b then suc rest else rest
