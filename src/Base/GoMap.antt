-- ===== src/Base/GoMap.antt =====
-- Go maps with string keys and values. Writing to a nil map panics; reading a missing key, or a nil
-- map, gives the empty string.
use Prim.Native.String.{String}
use mathlib.Core.Path.{◌≡◌, refl}
use mathlib.Core.Logic.{◌⊎◌, inl, inr}
use mathlib.Core.Option.{Option, none, some}
use mathlib.Core.List.{List, [], ◌∷◌}
use native.Mathlib.Omega.{arith}
use text.Mathlib.Text.{◌==◌}
use text.Mathlib.TextEquality.{eq_iff}
use cert_broker.Base.Defs.{if◌then◌else◌}
use cert_broker.Base.Exec.{Outcome, returned, panicked}

abbrev pub Pairs : Type 0
Pairs = List (String × String)

pub data GoMap : Type 0 where
  nil : GoMap
  made : Pairs → GoMap

unfoldable pub lookup : String → Pairs → Option String
lookup wanted [] = none
lookup wanted ((key, value) ∷ rest) = if key == wanted then some value else lookup wanted rest

unfoldable pub insert : String → String → Pairs → Pairs
insert wanted new [] = (wanted, new) ∷ []
insert wanted new ((key, old) ∷ rest) =
    if key == wanted then (wanted, new) ∷ rest else (key, old) ∷ insert wanted new rest

abbrev pub pairs : GoMap → Pairs
pairs nil = []
pairs (made m) = m

-- The comma-ok read.
abbrev pub find : GoMap → String → Option String
find m k = lookup k (pairs m)

abbrev pub or_empty : Option String → String
or_empty none = ""
or_empty (some v) = v

-- m[k]
abbrev pub index : GoMap → String → String
index m k = or_empty (find m k)

-- m[k] = v
abbrev pub assign : GoMap → String → String → Outcome GoMap
assign nil k v = panicked
assign (made m) k v = returned (made (insert k v m))

-- A read after a write: the value that was written at its key, and elsewhere the value before.
pub lookup-insert :
    (written read value : String) (m : Pairs)
    → lookup read (insert written value m) ≡ (if written == read then some value else lookup read m)
unfolding insert lookup
lookup-insert written read value [] = refl
lookup-insert written read value ((key, old) ∷ rest) =
    let later = lookup-insert written read value rest in
    ground (arith, later, eq_iff key written, eq_iff key read, eq_iff written read)

-- No key stands twice.
abbrev pub NodupKeys : Pairs → Type 0
NodupKeys [] = Unit
NodupKeys ((k, _) ∷ m) = (lookup k m ≡ none) × NodupKeys m

pub insert-NodupKeys : (k v : String) (m : Pairs) → NodupKeys m → NodupKeys (insert k v m)
unfolding insert lookup
insert-NodupKeys k v [] u = (refl, tt)
insert-NodupKeys k v ((j, w) ∷ m) (fresh, u) =
    ground (arith, insert-NodupKeys k v m u, lookup-insert k j v m, eq_iff j k, eq_iff k j)

pub GoMap-cases : (m : GoMap) → (m ≡ nil) ⊎ ((l : Pairs) × (m ≡ made l))
GoMap-cases nil = inl refl
GoMap-cases (made l) = inr (l, refl)
