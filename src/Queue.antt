-- ===== src/Queue.antt =====
-- What the workers of both controllers share: the items of a work queue, and actions that list the
-- calls made of the queue. `C` is the type of these calls.
use cert_broker.Base.{String, List, [], ◌∷◌, ◌++◌}
use cert_broker.Base.Exec.{Exec, returned}

-- An item of the queue: a key, or a value that is no string.
pub data Item : Type 0 where
  key : String → Item
  foreign : Item

-- The state that the handler works on, and the calls made so far.
pub record Worker (S C : Type 0) : Type 0 where
  pub state : S
  pub calls : List C

module _ {S C : Type 0} where
  abbrev pub make : C → Exec (Worker S C) (Unit {0})
  make c w = (returned tt, record w { calls = w.calls ++ c ∷ [] })

module _ {S C A : Type 0} where
  -- `defer`: the last call is made on a panic too.
  abbrev pub deferring : Exec (Worker S C) A → C → Exec (Worker S C) A
  deferring m c w = let (r, w') = m w in (r, record w' { calls = w'.calls ++ c ∷ [] })

  abbrev pub within : Exec S A → Exec (Worker S C) A
  within m w = let (r, s) = m w.state in (r, record w { state = s })
