-- ===== src/Events/Sync/Totality.antt =====
-- pkg/events/sync.go: Sync where the clusters answer and the API server keeps the versions of the events.
use cert_broker.Base.{
  String, true, false, ◌≡◌, ◌≢◌, refl, ◌∙◌, arith, ◌==◌, ◌&&◌, some, List, [], ◌∷◌, inl, inr, ok,
  Option,
}
use cert_broker.Base.{Bool-cases, Result-cases}
use cert_broker.Base.Exec.{Outcome}
use cert_broker.Base.Text.{nonempty}
use cert_broker.Kube.{Event, OwnerReference, Certificate}
use cert_broker.Kube.Api.{Api}
use cert_broker.Kube.Store.{Store, place_self}
use cert_broker.Kube.Laws.{IsLawful, IsFresh}
use cert_broker.Kube.Reliable.{IsReliable}
use cert_broker.Kube.Versioned.{IsVersioned}
use cert_broker.Broker.{Broker}
use cert_broker.Naming.{split_namespace, ingress_kind}
use cert_broker.Events.Sync.{counted, visit_owners, sync_event, sync_names, sync}
use cert_broker.Events.Sync.Effects.{
  notified, noted, announced, visited, Ends, IsVisited, replicated, replicated_missing, there,
  replicated_first, replicated_again,
}

module _ (api : Api) (lawful : IsLawful api) (fresh : IsFresh api lawful)
    (reliable : IsReliable api) (versioned : IsVersioned api lawful)
    (extensions_version : String) where
  open lawful use {view, view-control_event, view-control_certificate}

  module _ (namespace : String) (event : Event)
      (given : nonempty event.resource_version ≡ true) where
    abbrev visit :
        List OwnerReference → Broker api.World → Outcome (Option api.Error) × Broker api.World
    visit = visit_owners api extensions_version namespace event

    -- After the count was noted: the next Ingress that is there ends the loop.
    IsVisited-again :
        (owners : List OwnerReference) (s : Broker api.World) (st : Store) (version : String)
        (old : Event)
        → view s.world ≡ st
        → st.control_events namespace event.name ≡ some old
        → old.resource_version ≢ event.resource_version
        → IsVisited api lawful fresh reliable versioned extensions_version namespace event given
            version true owners st
            (visit owners s)
    unfolding visit_owners
    IsVisited-again [] s st version old start stored other = (start, refl)
    IsVisited-again (owner ∷ owners) s st version old start stored other =
        let (ns, n) = split_namespace owner.name in
        let read = api.target_ingress ns n s.world in
        elim (Bool-cases (owner.api_version == extensions_version && owner.kind == ingress_kind)) [
          | inr b ↦ rw b (IsVisited-again owners s st version old start stored other)
          | inl b ↦ elim (Result-cases read.0) [
            | inr (x, e) ↦
                let (gone, r, w) =
                  replicated_missing api lawful fresh reliable versioned extensions_version
                    namespace event given s ns n st start x e in
                rw (b, gone, r) (w, refl)
            | inl (ing, e) ↦
                let here =
                  there api lawful fresh reliable versioned extensions_version namespace event given
                    s ns n st start ing e in
                let ((f, r, conflict), w) =
                  replicated_again api lawful fresh reliable versioned extensions_version namespace
                    event given s ns n st start ing e old stored other in
                rw (b, here, r) (w, (f, refl, conflict))
          ]
        ]

    -- Before that, with the event that is stored.
    IsVisited-first :
        (owners : List OwnerReference) (s : Broker api.World) (st : Store)
        → view s.world ≡ st
        → st.control_events namespace event.name ≡ some event
        → counted event ≢ event
        → (version : String) × IsVisited api lawful fresh reliable versioned extensions_version
            namespace event given version false owners st
            (visit owners s)
    unfolding visit_owners
    IsVisited-first [] s st start stored uncounted = ("", (start, refl))
    IsVisited-first (owner ∷ owners) s st start stored uncounted =
        let (ns, n) = split_namespace owner.name in
        let read = api.target_ingress ns n s.world in
        elim (Bool-cases (owner.api_version == extensions_version && owner.kind == ingress_kind)) [
          | inr b ↦ rw b (IsVisited-first owners s st start stored uncounted)
          | inl b ↦ elim (Result-cases read.0) [
            | inr (x, e) ↦
                let (gone, r, w) =
                  replicated_missing api lawful fresh reliable versioned extensions_version
                    namespace event given s ns n st start x e in
                rw (b, gone, r) ("", (w, refl))
            | inl (ing, e) ↦
                let here =
                  there api lawful fresh reliable versioned extensions_version namespace event given
                    s ns n st start ing e in
                let (r, (version, w, other)) =
                  replicated_first api lawful fresh reliable versioned extensions_version namespace
                    event given s ns n st start ing e stored uncounted in
                let rep =
                  replicated api lawful fresh reliable versioned extensions_version namespace event
                    given s ns n st start in
                let at =
                  place_self (notified namespace event ing st).control_events namespace event.name
                    (some (noted namespace event version)) in
                rw (b, here, r)
                  (
                    version,
                    IsVisited-again owners rep.1 (announced namespace event version ing st) version
                        (noted namespace event version) w at other,
                  )
          ]
        ]

  -- If the calls keep the laws, the caches are fresh, the clusters fail for what is missing or
  -- outdated alone, the API server keeps the versions of the events, and Sync, of a key that splits
  -- into a namespace and a name, reads the event, as it is stored, with a version and without its
  -- count noted, and its certificate with the owners, then, for some version, the tables and
  -- records after Sync are those of the description: the event was recorded for every Ingress among
  -- the owners, in order and up to the first one that is missing or the second one that is there,
  -- the count was noted in the event, in that version, if there was such an Ingress, and nothing
  -- else changes. Sync returns without an error, or, exactly if there was a second Ingress, with
  -- the conflict of its update.
  pub sync-visits :
      (key namespace name : String) (s : Broker api.World) (event : Event)
      (owners : List OwnerReference)
      → let read = api.control_event namespace name s.world in
        let involved = event.involved_object in
        api.split_meta_namespace_key key ≡ ok (namespace, name)
        → read.0 ≡ ok event
        → (api.control_certificate involved.namespace involved.name read.1).0
          ≡ ok (Certificate.unstructured owners)
        → (view s.world).control_events namespace event.name ≡ some event
        → nonempty event.resource_version ≡ true
        → counted event ≢ event
        → (version : String) × (let (st, refused) =
              visited namespace event extensions_version version false owners (view s.world) in
            (view (sync api extensions_version key s).1.world ≡ st)
            × Ends api refused (sync api extensions_version key s).0)
  unfolding sync
  sync-visits key namespace name s event owners split found certified stored given uncounted =
      let involved = event.involved_object in
      let read = api.control_event namespace name s.world in
      let cert = api.control_certificate involved.namespace involved.name read.1 in
      let s' : Broker api.World = record s { world = cert.1 } in
      let run : sync api extensions_version key s
          ≡ visit_owners api extensions_version namespace event owners s' =
        unfold sync_names sync_event in ground (arith, split, found, certified) in
      let start =
        view-control_certificate involved.namespace involved.name read.1
        ∙ view-control_event namespace name s.world in
      rw run (IsVisited-first namespace event given owners s' (view s.world) start stored uncounted)
