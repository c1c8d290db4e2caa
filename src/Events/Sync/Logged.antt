-- ===== src/Events/Sync/Logged.antt =====
-- pkg/events/sync.go: the failures of a run of Sync.
use cert_broker.Base.{String, refl, arith, none, some, [], ◌∷◌, inl, inr}
use cert_broker.Base.{Result-cases, Option-cases, Bool-cases}
use cert_broker.Kube.Api.{Api}
use cert_broker.Kube.Logged.{logged, Reports, ReportsIn}
use cert_broker.Broker.{Broker}
use cert_broker.Base.{Option, List, ◌==◌, ◌&&◌}
use cert_broker.Base.Exec.{Outcome-cases}
use cert_broker.Kube.{Event, OwnerReference, Certificate}
use cert_broker.Naming.{split_namespace, ingress_kind}
use cert_broker.Events.Sync.{counted, replicate_event, visit_owners, sync_event, sync}

-- The error of a return from within the loop.
abbrev joined : {E : Type 0} → Option (Option E) → Option E
joined none = none
joined (some e) = e

module _ (api : Api) (extensions_version : String) where
  Reports-replicate_event :
      (namespace : String) (event : Event) (target : String × String)
      → ReportsIn api joined
          (replicate_event (logged api) extensions_version namespace event target)
  unfolding replicate_event
  Reports-replicate_event namespace event (ing_namespace, ing_name) s =
      let read = (logged api).target_ingress ing_namespace ing_name s.world in
      elim (Result-cases read.0) [
        | inr (f, e) ↦ ground (arith, e)
        | inl (ing, e) ↦
            let recorded =
              ((logged api).record_event ing event.kind event.reason event.message read.1).1 in
            elim (Option-cases ((logged api).update_event namespace (counted event) recorded).0) [
              | inl g ↦ ground (arith, e, g)
              | inr (x, g) ↦ ground (arith, e, g)
            ]
      ]

  Reports-visit_owners :
      (namespace : String) (event : Event) (owners : List OwnerReference)
      → Reports api (visit_owners (logged api) extensions_version namespace event owners)
  unfolding visit_owners
  Reports-visit_owners namespace event [] s = refl
  Reports-visit_owners namespace event (owner ∷ owners) s =
      let rep =
        replicate_event (logged api) extensions_version namespace event (split_namespace owner.name)
          s in
      let q = Reports-replicate_event namespace event (split_namespace owner.name) s in
      elim (Bool-cases (owner.api_version == extensions_version && owner.kind == ingress_kind)) [
        | inr b ↦ ground (arith, b, Reports-visit_owners namespace event owners s)
        | inl b ↦ elim (Outcome-cases rep.0) [
          | inl (none, e) ↦
              ground (arith, b, e, q, Reports-visit_owners namespace event owners rep.1)
          | inl (some x, e) ↦ ground (arith, b, e, q)
          | inr e ↦ ground (arith, b, e, q)
        ]
      ]

  Reports-sync_event :
      (namespace : String) (event : Event)
      → Reports api (sync_event (logged api) extensions_version namespace event)
  unfolding sync_event
  Reports-sync_event namespace event s =
      let read =
        (logged api).control_certificate event.involved_object.namespace event.involved_object.name
          s.world in
      let s' : Broker (logged api).World = record s { world = read.1 } in
      elim (Result-cases read.0) [
        | inr (f, e) ↦ ground (arith, e)
        | inl (Certificate.nil, e) ↦ ground (arith, e)
        | inl (Certificate.unstructured owners, e) ↦
            ground (arith, e, Reports-visit_owners namespace event owners s')
        | inl (Certificate.foreign, e) ↦ ground (arith, e)
      ]

  pub Reports-sync : (key : String) → Reports api (sync (logged api) extensions_version key)
  unfolding sync cert_broker.Events.Sync.sync_names
  Reports-sync key s = elim (Result-cases (api.split_meta_namespace_key key)) [
    | inr (f, k) ↦ ground (arith, k)
    | inl ((namespace, name), k) ↦
        let read = (logged api).control_event namespace name s.world in
        elim (Result-cases read.0) [
          | inr (f, e) ↦ ground (arith, k, e)
          | inl (event, e) ↦
              ground (arith, k, e, Reports-sync_event namespace event (record s { world = read.1 }))
        ]
  ]
