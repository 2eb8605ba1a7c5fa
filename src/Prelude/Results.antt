-- ===== src/Prelude/Results.antt =====
-- Python exceptions as values, with the handler `except Exception` as a function.
use mathlib.Core.Path.{◌≡◌}

pub data Exception : Type 0 where
  key_error value_error runtime_error index_error connection_error type_error : Exception
  struct_error attribute_error name_error : Exception

pub data Result {ℓ} (A : Type ℓ) : Type ℓ where
  ok : A → Result A
  raises : Exception → Result A

-- An exception ends a `do` block.
abbrev pub ◌>>=◌ {ℓ} : {V W : Type ℓ} → Result V → (V → Result W) → Result W
raises x >>= k = raises x
ok v >>= k = k v

infixl 5 ◌>>=◌
abbrev pub IsOk {ℓ} : {A : Type ℓ} → Result A → Type 0
IsOk (ok a) = Unit
IsOk (raises x) = ⊥

abbrev pub IsRaise {ℓ} : {A : Type ℓ} → Result A → Type 0
IsRaise (ok a) = ⊥
IsRaise (raises x) = Unit

-- Total correctness: the call returns, and what it returns satisfies `P`.
abbrev pub Returns {ℓ} : {A : Type ℓ} → Result A → (A → Type 0) → Type 0
Returns (ok a) P = P a
Returns (raises x) P = ⊥

pub Returns-map {ℓ} :
    {A : Type ℓ} (r : Result A) {P Q : A → Type 0}
    → ((a : A) → P a → Q a)
    → Returns r P
    → Returns r Q
Returns-map (ok a) h p = h a p
Returns-map (raises x) h p = p

pub Returns-ok {ℓ} :
    {A : Type ℓ} {r : Result A} (P : A → Type 0) {a : A} → Returns r P → r ≡ ok a → P a
Returns-ok P p e = rw e at p

pub IsOk-Returns {ℓ} : {A : Type ℓ} (P : A → Type 0) (r : Result A) → Returns r P → IsOk r
IsOk-Returns P (ok a) h = tt
IsOk-Returns P (raises x) h = h

-- what holds of the result, if there is one
abbrev pub IfOk {ℓ} : {A : Type ℓ} → (A → Type 0) → Result A → Type 0
IfOk P (ok a) = P a
IfOk P (raises x) = Unit

pub bind-IfOk {ℓ} :
    {A B : Type ℓ} (P : A → Type 0) (Q : B → Type 0) (r : Result A) (k : A → Result B)
    → IfOk P r
    → ((a : A) → P a → IfOk Q (k a))
    → IfOk Q (r >>= k)
bind-IfOk P Q (raises x) k h next = tt
bind-IfOk P Q (ok a) k h next = next a h

pub IfOk-map {ℓ} :
    {A : Type ℓ} (P Q : A → Type 0) (r : Result A) → ((a : A) → P a → Q a) → IfOk P r → IfOk Q r
IfOk-map P Q (ok a) f h = f a h
IfOk-map P Q (raises x) f h = tt

pub bind-Returns {ℓ} :
    {A B : Type ℓ} (P : A → Type 0) (Q : B → Type 0) (r : Result A) (k : A → Result B)
    → Returns r P
    → ((a : A) → P a → Returns (k a) Q)
    → Returns (r >>= k) Q
bind-Returns P Q (raises x) k h next = h
bind-Returns P Q (ok a) k h next = next a h

pub IfOk-any {ℓ} : {A : Type ℓ} (r : Result A) → IfOk (λ a. Unit) r
IfOk-any (ok a) = tt
IfOk-any (raises x) = tt

pub IfOk-ok {ℓ} : {A : Type ℓ} (P : A → Type 0) (r : Result A) (a : A) → IfOk P r → r ≡ ok a → P a
IfOk-ok P r a h e = rw e at h
