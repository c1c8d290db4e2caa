-- ===== src/Events/Sync/Effects.antt =====
-- pkg/events/sync.go: what the loop over the owners of a certificate records and writes. Every update is
-- of a copy of the event that was read before the loop, with its version: the second one is refused.
use cert_broker.Base.{
  String, Bool, true, false, ◌==◌, ◌&&◌, ◌≡◌, ◌≢◌, refl, ◌∙◌, sym, ap, arith, Option, none, some,
  List, [], ◌∷◌, if◌then◌else◌, ok, err,
}
use cert_broker.Base.{Result}
use cert_broker.Base.Exec.{Outcome, returned}
use cert_broker.Base.Text.{nonempty}
use cert_broker.Kube.{Ingress, Event, OwnerReference}
use cert_broker.Kube.Api.{Api}
use cert_broker.Kube.Store.{Store, put_control_event, notify, place_self}
use cert_broker.Kube.Laws.{IsLawful, IsFresh}
use cert_broker.Kube.Reliable.{IsReliable}
use cert_broker.Kube.Versioned.{IsVersioned}
use cert_broker.Broker.{Broker}
use cert_broker.Naming.{split_namespace, ingress_kind}
use cert_broker.Events.Sync.{counted, replicate_event}

module _ (namespace : String) (event : Event) where
  abbrev pub notified : Ingress → Store → Store
  notified ing st = notify ing event.kind event.reason event.message st

  -- The event with its count, in the version that the API server gives it.
  abbrev pub noted : String → Event
  noted version = record (counted event) { resource_version = version }

  abbrev pub announced : String → Ingress → Store → Store
  announced version ing st =
      put_control_event namespace event.name (some (noted version)) (notified ing st)

  -- The tables and records after the owners, and whether an update was refused; `written` says that
  -- the count was noted before. The first Ingress that is missing ends the loop, and so does the
  -- second one that is there, after its record.
  abbrev pub visited : String → String → Bool → List OwnerReference → Store → Store × Bool
  visited extensions_version version written [] st = (st, false)
  visited extensions_version version written (owner ∷ owners) st =
      let (ing_namespace, ing_name) = split_namespace owner.name in
      if owner.api_version == extensions_version && owner.kind == ingress_kind
      then elim (st.target_ingresses ing_namespace ing_name) [
        | none ↦ (st, false)
        | some ing ↦
            if written
            then (notified ing st, true)
            else visited extensions_version version true owners (announced version ing st)
      ]
      else visited extensions_version version written owners st

-- The loop returns no error, or the conflict of the update that was refused.
abbrev pub Ends : (api : Api) → Bool → Outcome (Option api.Error) → Type 0
Ends api false r = r ≡ returned none
Ends api true r = (f : api.Error) × (r ≡ returned (some f)) × (api.is_conflict f ≡ true)

module _ (api : Api) (lawful : IsLawful api) (fresh : IsFresh api lawful)
    (reliable : IsReliable api) (versioned : IsVersioned api lawful) (extensions_version : String)
    (namespace : String) (event : Event) (given : nonempty event.resource_version ≡ true) where
  open lawful use {view, view-target_ingress, view-record_event, view-update_event}
  open lawful use {view-update_event_conflict}

  abbrev pub IsVisited :
      String
      → Bool
      → List OwnerReference
      → Store
      → Outcome (Option api.Error) × Broker api.World
      → Type 0
  IsVisited version written owners st (r, s) =
      let (st', refused) = visited namespace event extensions_version version written owners st in
      (view s.world ≡ st') × Ends api refused r

  module _ (s : Broker api.World) (ing_namespace ing_name : String) (st : Store)
      (start : view s.world ≡ st) where
    abbrev pub read : Result api.Error Ingress × api.World
    read = api.target_ingress ing_namespace ing_name s.world

    abbrev pub replicated : Outcome (Option (Option api.Error)) × Broker api.World
    replicated = replicate_event api extensions_version namespace event (ing_namespace, ing_name) s

    start' : view read.1 ≡ st
    start' = view-target_ingress ing_namespace ing_name s.world ∙ start

    at :
        st.target_ingresses ing_namespace ing_name
        ≡ (view s.world).target_ingresses ing_namespace ing_name
    at = ap (λ (t : Store). t.target_ingresses ing_namespace ing_name) (sym start)

    -- The function returns without an error if the Ingress is missing.
    pub replicated_missing :
        (x : api.Error)
        → read.0 ≡ err x
        → (st.target_ingresses ing_namespace ing_name ≡ none)
          × (replicated.0 ≡ returned (some none))
          × (view replicated.1.world ≡ st)
    unfolding replicate_event
    replicated_missing x e =
        let m = reliable.target_reads ing_namespace ing_name s.world x e in
        (
          at ∙ fresh.target_missing ing_namespace ing_name s.world x e m,
          ground (arith, e, m),
          ground (arith, e, start'),
        )

    module _ (ing : Ingress) (e : read.0 ≡ ok ing) where
      abbrev pub recorded : api.World
      recorded = (api.record_event ing event.kind event.reason event.message read.1).1

      pub there : st.target_ingresses ing_namespace ing_name ≡ some ing
      there = at ∙ fresh.target_found ing_namespace ing_name s.world ing e

      view-recorded : view recorded ≡ notified namespace event ing st
      view-recorded =
          view-record_event ing event.kind event.reason event.message read.1
          ∙ ap (notified namespace event ing) start'

      stored_at :
          (old : Event)
          → st.control_events namespace event.name ≡ some old
          → (view recorded).control_events namespace event.name ≡ some old
      stored_at old stored =
          ap (λ (t : Store). t.control_events namespace event.name) view-recorded ∙ stored

      -- The loop goes on after the event was recorded and its count noted.
      pub replicated_first :
          st.control_events namespace event.name ≡ some event
          → counted event ≢ event
          → (replicated.0 ≡ returned none)
            × ((v : String) × (view replicated.1.world ≡ announced namespace event v ing st)
                × (v ≢ event.resource_version))
      unfolding replicate_event counted
      replicated_first stored uncounted =
          let e' = counted event in
          let current = stored_at event stored in
          let f = versioned.accepts namespace e' event recorded current refl in
          let (v, w) = view-update_event namespace e' recorded f in
          let put =
            w
            ∙ ap (put_control_event namespace event.name (some (noted namespace event v)))
                view-recorded in
          let new =
            ap (λ (t : Store). t.control_events namespace event.name) put
            ∙ place_self (notified namespace event ing st).control_events namespace event.name
                (some (noted namespace event v)) in
          (
            ground (arith, e, f),
            (
              v,
              ground (arith, e, f, put),
              versioned.changes namespace e' event (noted namespace event v) recorded current refl
                  (λ same. uncounted (sym same)) new,
            ),
          )

      -- The update is refused if the version has changed.
      pub replicated_again :
          (old : Event)
          → st.control_events namespace event.name ≡ some old
          → old.resource_version ≢ event.resource_version
          → ((f : api.Error) × (replicated.0 ≡ returned (some (some f)))
              × (api.is_conflict f ≡ true))
            × (view replicated.1.world ≡ notified namespace event ing st)
      unfolding replicate_event counted
      replicated_again old stored other =
          let e' = counted event in
          let (f, refused, conflict) =
            versioned.refuses namespace e' old recorded (stored_at old stored) other given in
          let same =
            view-update_event_conflict namespace e' recorded refused conflict ∙ view-recorded in
          ((f, ground (arith, e, refused), conflict), ground (arith, e, refused, same))
