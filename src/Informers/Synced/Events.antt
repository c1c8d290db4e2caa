-- ===== src/Informers/Synced/Events.antt =====
-- Sync of pkg/events/sync.go through caches.
use cert_broker.Base.{String, Bool, true, List, [], ◌∷◌, ◌≡◌, ◌==◌, ◌&&◌, refl, arith, inl, inr}
use cert_broker.Base.{Bool-cases, Option-cases, Result-cases}
use cert_broker.Base.Exec.{Outcome-cases}
use cert_broker.Kube.{Event, OwnerReference, Certificate}
use cert_broker.Kube.Api.{Api}
use cert_broker.Broker.{Broker}
use cert_broker.Naming.{split_namespace, ingress_kind}
use cert_broker.Events.Sync.{replicate_event, visit_owners, sync_event, sync}
use cert_broker.Informers.{Informer, cached, target_ingresses, control_events, certificates}

module _ (api : Api) (has_synced : Informer → Bool) (missing : api.Error) where
  abbrev through : Api
  through = cached api has_synced missing

  module _ (extensions_version : String) (target : has_synced target_ingresses ≡ true) where
    replicate_event-cached :
        (namespace : String) (event : Event) (target : String × String) (s : Broker api.World)
        → replicate_event through extensions_version namespace event target s
          ≡ replicate_event api extensions_version namespace event target s
    unfolding replicate_event
    replicate_event-cached namespace event (ing_namespace, ing_name) s =
        elim (Result-cases (api.target_ingress ing_namespace ing_name s.world).0) [
          | inr (f, e) ↦ ground (arith, target, e)
          | inl (i, e) ↦ ground (arith, target, e)
        ]

    visit_owners-cached :
        (namespace : String) (event : Event) (owners : List OwnerReference) (s : Broker api.World)
        → visit_owners through extensions_version namespace event owners s
          ≡ visit_owners api extensions_version namespace event owners s
    unfolding visit_owners
    visit_owners-cached namespace event [] s = refl
    visit_owners-cached namespace event (owner ∷ owners) s =
        let ih = visit_owners-cached namespace event owners in
        let r = replicate_event-cached namespace event (split_namespace owner.name) s in
        let rep =
          replicate_event api extensions_version namespace event (split_namespace owner.name) s in
        elim (Bool-cases (owner.api_version == extensions_version && owner.kind == ingress_kind)) [
          | inr b ↦ ground (arith, b, ih s)
          | inl b ↦ elim (Outcome-cases rep.0) [
            | inr e ↦ ground (arith, b, r, e)
            | inl (o, e) ↦ elim (Option-cases o) [
              | inl n ↦ ground (arith, b, r, e, n, ih rep.1)
              | inr (x, n) ↦ ground (arith, b, r, e, n)
            ]
          ]
        ]

    sync_event-cached :
        has_synced certificates ≡ true
        → (namespace : String) (event : Event) (s : Broker api.World)
        → sync_event through extensions_version namespace event s
          ≡ sync_event api extensions_version namespace event s
    unfolding sync_event
    sync_event-cached certificate namespace event s =
        let c =
          api.control_certificate event.involved_object.namespace event.involved_object.name
            s.world in
        elim (Result-cases c.0) [
          | inr (f, e) ↦ ground (arith, certificate, e)
          | inl (Certificate.nil, e) ↦ ground (arith, certificate, e)
          | inl (Certificate.unstructured owners, e) ↦ ground (
            arith,
            certificate,
            e,
            visit_owners-cached namespace event owners (record s { world = c.1 }),
          )
          | inl (Certificate.foreign, e) ↦ ground (arith, certificate, e)
        ]

    pub sync-cached :
        has_synced certificates ≡ true
        → has_synced control_events ≡ true
        → (key : String) (s : Broker api.World)
        → sync through extensions_version key s ≡ sync api extensions_version key s
    unfolding sync cert_broker.Events.Sync.sync_names
    sync-cached certificate events key s = elim (Result-cases (api.split_meta_namespace_key key)) [
      | inr (f, k) ↦ ground (arith, k)
      | inl ((namespace, name), k) ↦
          let read = api.control_event namespace name s.world in
          elim (Result-cases read.0) [
            | inr (f, e) ↦ ground (arith, k, events, e)
            | inl (event, e) ↦ ground (
              arith,
              k,
              events,
              e,
              sync_event-cached certificate namespace event (record s { world = read.1 }),
            )
          ]
    ]
