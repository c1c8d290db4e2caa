-- ===== src/Base/Slice.antt =====
-- Go slices: `nil` is told apart from an empty slice by `reflect.DeepEqual` alone.
use mathlib.Core.Path.{◌≡◌, refl}
use mathlib.Core.Logic.{◌⊎◌, inl, inr}
use mathlib.Core.List.{List, [], ◌∷◌, ◌++◌}

pub data Slice (A : Type 0) : Type 0 where
  nil : Slice A
  made : List A → Slice A

module _ {A : Type 0} where
  abbrev pub elements : Slice A → List A
  elements nil = []
  elements (made xs) = xs

  -- append(s, x)
  abbrev pub append : Slice A → A → Slice A
  append s x = made (elements s ++ x ∷ [])

  pub Slice-cases : (s : Slice A) → (s ≡ nil) ⊎ ((xs : List A) × (s ≡ made xs))
  Slice-cases nil = inl refl
  Slice-cases (made xs) = inr (xs, refl)
