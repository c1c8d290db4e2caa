-- ===== src/Base/Exec.antt =====
-- Code that changes a state and may panic. A panic leaves what was done before it.
use mathlib.Core.Path.{◌≡◌, refl}
use mathlib.Core.Logic.{◌⊎◌, inl, inr}

pub data Outcome (A : Type 0) : Type 0 where
  returned : A → Outcome A
  panicked : Outcome A

abbrev pub Exec : Type 0 → Type 0 → Type 0
Exec S A = S → Outcome A × S

module _ {S A : Type 0} where
  abbrev pub pure : A → Exec S A
  pure a s = (returned a, s)

  abbrev pub panic : Exec S A
  panic s = (panicked, s)

  -- A call of code that is not modelled: it may change the state, and it returns.
  abbrev pub call : (S → A × S) → Exec S A
  call f s = let (a, s') = f s in (returned a, s')

  -- What is seen of the state stays, whatever the outcome.
  abbrev pub Fixes : {K : Type 0} → (S → K) → Exec S A → Type 0
  Fixes seen m = (s : S) → seen (m s).1 ≡ seen s

  -- From a state with the invariant the code returns, in a state with the invariant.
  abbrev pub IsSafe : (S → Type 0) → Exec S A → Type 0
  IsSafe Inv m = (s : S) → Inv s → (a : A) × ((m s).0 ≡ returned a) × Inv (m s).1

  -- The code ends without a panic.
  abbrev pub Returns : Exec S A → S → Type 0
  Returns m s = (a : A) × ((m s).0 ≡ returned a)

module _ {S A B : Type 0} where
  abbrev pub continue : Outcome A → (A → Exec S B) → Exec S B
  continue (returned a) f s = f a s
  continue panicked f s = (panicked, s)

  infixl 5 ◌>>=◌ ◌>>◌
  abbrev pub ◌>>=◌ : Exec S A → (A → Exec S B) → Exec S B
  ◌>>=◌ first rest s = let (r, after) = first s in continue r rest after

  abbrev pub ◌>>◌ : Exec S A → Exec S B → Exec S B
  first >> second = first >>= λ _. second

pub Outcome-cases : {A : Type 0} (r : Outcome A) → ((a : A) × (r ≡ returned a)) ⊎ (r ≡ panicked)
Outcome-cases (returned a) = inl (a, refl)
Outcome-cases panicked = inr refl
