-- ===== src/Events/Sync/Guarded.antt =====
-- pkg/events/sync.go: Sync, with calls that keep an invariant.
use cert_broker.Base.{String, ◌≡◌, refl, none, some, [], ◌∷◌, inl, inr, arith}
use cert_broker.Base.{Result-cases, Option-cases, Bool-cases}
use cert_broker.Base.Exec.{returned}
use cert_broker.Base.{List, ◌==◌, ◌&&◌}
use cert_broker.Kube.{Event, OwnerReference, Certificate}
use cert_broker.Kube.Api.{Api}
use cert_broker.Kube.Guarded.{IsGuarded}
use cert_broker.Broker.{Broker}
use cert_broker.Naming.{split_namespace, ingress_kind}
use cert_broker.Ingress.CopyTls.Guarded.{Safe}
use cert_broker.Events.Sync.{counted, replicate_event, visit_owners, sync_event, sync}

module _ (api : Api) (Inv : api.World → Type 0) (g : IsGuarded api Inv)
    (extensions_version : String) where
  Safe-replicate_event :
      (namespace : String) (event : Event) (target : String × String)
      → Safe api Inv g (replicate_event api extensions_version namespace event target)
  unfolding replicate_event
  Safe-replicate_event namespace event (ing_namespace, ing_name) s inv =
      let read = api.target_ingress ing_namespace ing_name s.world in
      let inv' = g.keeps-target_ingress ing_namespace ing_name s.world inv in
      elim (Result-cases read.0) [
        | inr (f, e) ↦ rw e (_, refl, inv')
        | inl (ing, e) ↦
            let recorded = (api.record_event ing event.kind event.reason event.message read.1).1 in
            let noted =
              g.keeps-record_event ing event.kind event.reason event.message read.1 inv' in
            let inv'' = g.keeps-update_event namespace (counted event) recorded noted in
            rw e (elim (Option-cases (api.update_event namespace (counted event) recorded).0) [
              | inl d ↦ rw d (none, refl, inv'')
              | inr (x, d) ↦ rw d (some (some x), refl, inv'')
            ])
      ]

  Safe-visit_owners :
      (namespace : String) (event : Event) (owners : List OwnerReference)
      → Safe api Inv g (visit_owners api extensions_version namespace event owners)
  unfolding visit_owners
  Safe-visit_owners namespace event [] s inv = (none, refl, inv)
  Safe-visit_owners namespace event (owner ∷ owners) s inv =
      let target = split_namespace owner.name in
      let s' = (replicate_event api extensions_version namespace event target s).1 in
      elim (Bool-cases (owner.api_version == extensions_version && owner.kind == ingress_kind)) [
        | inr b ↦ rw b (Safe-visit_owners namespace event owners s inv)
        | inl b ↦
            let (result, e, inv') = Safe-replicate_event namespace event target s inv in
            rw (b, e)
              (elim (Option-cases result) [
                | inl d ↦ rw d (Safe-visit_owners namespace event owners s' inv')
                | inr (x, d) ↦ rw d (x, refl, inv')
              ])
      ]

  Safe-sync_event :
      (namespace : String) (event : Event)
      → Safe api Inv g (sync_event api extensions_version namespace event)
  unfolding sync_event
  Safe-sync_event namespace event s inv =
      let ns = event.involved_object.namespace in
      let n = event.involved_object.name in
      let read = api.control_certificate ns n s.world in
      let inv' = g.keeps-control_certificate ns n s.world inv in
      elim (Result-cases read.0) [
        | inr (f, e) ↦ rw e (some f, refl, inv')
        | inl (Certificate.nil, e) ↦ rw e (none, refl, inv')
        | inl (Certificate.unstructured owners, e) ↦
            rw e (Safe-visit_owners namespace event owners (record s { world = read.1 }) inv')
        | inl (Certificate.foreign, e) ↦ rw e (none, refl, inv')
      ]

  pub Safe-sync : (key : String) → Safe api Inv g (sync api extensions_version key)
  unfolding sync cert_broker.Events.Sync.sync_names
  Safe-sync key s inv = elim (Result-cases (api.split_meta_namespace_key key)) [
    | inr (f, k) ↦
        let run : sync api extensions_version key s ≡ (returned none, s) = ground (arith, k) in
        rw run (none, refl, inv)
    | inl ((namespace, name), k) ↦
        let read = api.control_event namespace name s.world in
        let inv' = g.keeps-control_event namespace name s.world inv in
        let s' : Broker api.World = record s { world = read.1 } in
        elim (Result-cases read.0) [
          | inr (f, e) ↦
              let run : sync api extensions_version key s ≡ (returned (some f), s') =
                ground (arith, k, e) in
              rw run (some f, refl, inv')
          | inl (event, e) ↦
              let run : sync api extensions_version key s
                  ≡ sync_event api extensions_version namespace event s' =
                ground (arith, k, e) in
              rw run (Safe-sync_event namespace event s' inv')
        ]
  ]
