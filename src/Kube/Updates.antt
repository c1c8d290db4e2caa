-- ===== src/Kube/Updates.antt =====
-- The errors of the calls of Kube/Memory.antt, and its update of an event: the API server takes it for
-- the version that is stored, and gives it another one.
use cert_broker.Base.{
  ◌≡◌, ◌≢◌, ◌∙◌, sym, ap, refl, arith, String, ◌==◌, eq_iff, Bool, true, false, Bool-cases, inl,
  inr, Option, none, some, if◌then◌else◌,
}
use cert_broker.Kube.{Event}
use cert_broker.Kube.Store.{Store, put_control_event, place_self}

pub data Fault : Type 0 where
  missing exists outdated bad_key : Fault

abbrev pub is_missing : Fault → Bool
is_missing missing = true
is_missing _ = false

abbrev pub is_exists : Fault → Bool
is_exists exists = true
is_exists _ = false

abbrev pub is_outdated : Fault → Bool
is_outdated outdated = true
is_outdated _ = false

-- Another version than the given one.
abbrev next_version : String → String
next_version v = if v == "1" then "2" else "1"

-- The update of an event, where one is there, for its version.
abbrev pub update_at : Option Event → String → Event → Store → Option Fault × Store
update_at none namespace e s =
    (none, put_control_event namespace e.name (some (record e { resource_version = "1" })) s)
update_at (some old) namespace e s =
    if old.resource_version == e.resource_version
    then (
      none,
      put_control_event namespace e.name
          (some (record e { resource_version = next_version e.resource_version })) s,
    )
    else (some outdated, s)

pub update_at-none :
    (o : Option Event) (namespace : String) (e : Event) (s : Store)
    → (update_at o namespace e s).0 ≡ none
    → (v : String) × ((update_at o namespace e s).1
        ≡ put_control_event namespace e.name (some (record e { resource_version = v })) s)
update_at-none none namespace e s h = ("1", refl)
update_at-none (some old) namespace e s h = (
  next_version e.resource_version,
  elim (Bool-cases (old.resource_version == e.resource_version)) [
    | inl b ↦ rw b refl
    | inr b ↦ absurd (ground (arith, b, h))
  ],
)

pub update_at-some :
    (o : Option Event) (namespace : String) (e : Event) (s : Store) (f : Fault)
    → (update_at o namespace e s).0 ≡ some f
    → (update_at o namespace e s).1 ≡ s
update_at-some none namespace e s f h = absurd (cc h)
update_at-some (some old) namespace e s f h =
    elim (Bool-cases (old.resource_version == e.resource_version)) [
      | inl b ↦ absurd (ground (arith, b, h))
      | inr b ↦ rw b refl
    ]

-- Only an update of another version is refused.
pub update_at-outdated :
    (o : Option Event) (namespace : String) (e : Event) (s : Store) (f : Fault)
    → (update_at o namespace e s).0 ≡ some f
    → is_outdated f ≡ true
update_at-outdated none namespace e s f h = absurd (cc h)
update_at-outdated (some old) namespace e s f h =
    elim (Bool-cases (old.resource_version == e.resource_version)) [
      | inl b ↦ absurd (ground (arith, b, h))
      | inr b ↦ ground (arith, b, h)
    ]

-- A version is not its own successor.
next_version-other : (v : String) → next_version v ≢ v
next_version-other v e = elim (Bool-cases (v == "1")) [
  | inl b ↦
      let two : "2" ≡ v = rw b at e in
      let two_is_one = two ∙ (eq_iff v "1").0 b in absurd (cc (ap (λ x. x == "2") two_is_one))
  | inr b ↦ let one : "1" ≡ v = rw b at e in absurd (cc (b, (eq_iff v "1").1 (sym one)))
]

some_injective : {x y : Event} → some x ≡ some y → x ≡ y
some_injective h = cc h

-- The update of an event is that of an API server that keeps versions.
pub update_at-accepts :
    (o : Option Event) (namespace : String) (e old : Event) (s : Store)
    → o ≡ some old
    → old.resource_version ≡ e.resource_version
    → (update_at o namespace e s).0 ≡ none
update_at-accepts o namespace e old s h same =
    ground (arith, h, (eq_iff old.resource_version e.resource_version).1 same)

pub update_at-changes :
    (o : Option Event) (namespace : String) (e old new : Event) (s : Store)
    → o ≡ some old
    → old.resource_version ≡ e.resource_version
    → (update_at o namespace e s).1.control_events namespace e.name ≡ some new
    → new.resource_version ≢ e.resource_version
update_at-changes o namespace e old new s h same at =
    let next : Event = record e { resource_version = next_version e.resource_version } in
    let placed = place_self s.control_events namespace e.name (some next) in
    let equal = (eq_iff old.resource_version e.resource_version).1 same in
    let is_next : next ≡ new = some_injective (sym placed ∙ (rw (h, equal) at at)) in
    λ again.
      next_version-other e.resource_version (ap (λ (x : Event). x.resource_version) is_next ∙ again)

pub update_at-refuses :
    (o : Option Event) (namespace : String) (e old : Event) (s : Store)
    → o ≡ some old
    → old.resource_version ≢ e.resource_version
    → (update_at o namespace e s).0 ≡ some outdated
update_at-refuses o namespace e old s h other =
    elim (Bool-cases (old.resource_version == e.resource_version)) [
      | inl b ↦ absurd (other ((eq_iff old.resource_version e.resource_version).0 b))
      | inr b ↦ ground (arith, h, b)
    ]
