-- ===== src/Base/Text.antt =====
-- Tests on texts that the source takes from the package strings.
use Prim.Native.Nat.{ℕ, zero, suc, compare, Ordering}
use Prim.Native.Char.{Char, code}
use Prim.Native.String.{String, [], ◌∷◌}
use mathlib.Core.Bool.{Bool, true, false, ◌||◌}
use mathlib.Core.Option.{Option, none, some}
use mathlib.Core.List.{List}
use text.Mathlib.Text.{◌==◌}
use cert_broker.Base.Defs.{if◌then◌else◌}

-- len(s) > 0
abbrev pub nonempty : String → Bool
nonempty [] = false
nonempty (c ∷ s) = true

abbrev pub is_dot : Char → Bool
is_dot c = elim (compare (code c) b'.') [ Ordering.eq ↦ true | _ ↦ false ]

abbrev pub prepend : Char → Option (String × String) → Option (String × String)
prepend c none = none
prepend c (some (a, b)) = some (c ∷ a, b)

-- The text before the first dot and the text after it.
unfoldable pub cut : String → Option (String × String)
cut [] = none
cut (c ∷ s) = let rest = cut s in if is_dot c then some ([], s) else prepend c rest

-- strings.SplitN(s, ".", n) for n not below 0
unfoldable pub split_n : String → ℕ → List String
split_n s zero = List.[]
split_n s (suc zero) = List.◌∷◌ s List.[]
split_n s (suc (suc n)) = elim (cut s) [
  | none ↦ List.◌∷◌ s List.[]
  | some (a, b) ↦ List.◌∷◌ a (split_n b (suc n))
]

-- strings.HasSuffix(s, t)
unfoldable pub has_suffix : String → String → Bool
has_suffix [] t = [] == t
has_suffix (c ∷ s) t = (c ∷ s) == t || has_suffix s t
