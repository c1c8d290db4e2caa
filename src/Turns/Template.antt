-- ===== src/Turns/Template.antt =====
-- What the handlers leave of the template that they share.
use cert_broker.Base.{
  String, ◌≡◌, refl, ◌∙◌, arith, ap, none, some, List, [], ◌∷◌, inl, inr, ◌==◌, ◌&&◌,
}
use cert_broker.Base.{Result-cases, Option-cases, Bool-cases}
use cert_broker.Base.Exec.{Outcome-cases}
use cert_broker.Kube.{Ingress, Secret, Event, OwnerReference, Certificate}
use cert_broker.Kube.Api.{Api}
use cert_broker.Broker.{Broker}
use cert_broker.Naming.{split_namespace, ingress_kind}
use cert_broker.Template.{
  create_ingress_annotations, annotation_pairs, cluster_issuer_key, challenge_type_key,
}
use cert_broker.Template.Laws.{lookup-annotation_pairs}
use cert_broker.Base.GoMap.{lookup}
use cert_broker.Cleanup.{clean_up_ingress_and_tls_secrets}
use cert_broker.Ingress.Sync.Configured.{configured, Fixed, Fixed-clean_up, Fixed-sync_ingress}
use cert_broker.Secret.Sync.{
  copy_of, managed_labels, has_ingress_in_target_cluster, replicate_secret_to_target_cluster,
  sync_secret, sync as sync_secret_key,
}
use cert_broker.Events.Sync.{
  counted, replicate_event, visit_owners, sync_event, sync as sync_event_key,
}
use cert_broker.Cleaner.Sync.{
  Controller, override, update_annotations, check_target, sync_control, sync_handler,
}
use cert_broker.Turns.{
  Handlers, Turn, ingress_turn, secret_turn, event_turn, cleaner_turn, world_turn, Turns, none_yet,
  and_then,
}

module _ (api : Api) where
  Fixed-replicate : (x : Secret) → Fixed api (replicate_secret_to_target_cluster api x)
  unfolding replicate_secret_to_target_cluster
  Fixed-replicate x s =
      let t = copy_of x in
      elim (Option-cases (api.create_secret t.namespace t s.world).0) [
        | inl e ↦ ground (arith, e)
        | inr (f, e) ↦ ground (arith, e)
      ]

  Fixed-sync_secret : (x : Secret) (target : String × String) → Fixed api (sync_secret api x target)
  unfolding sync_secret
  Fixed-sync_secret x (target_namespace, target_name) s =
      elim (Result-cases (api.label_selector managed_labels)) [
        | inr (f, k) ↦ ground (arith, k)
        | inl (selector, k) ↦
            let list = api.target_ingresses target_namespace selector s.world in
            let s' : Broker api.World = record s { world = list.1 } in
            elim (Result-cases list.0) [
              | inr (f, e) ↦ ground (arith, k, e)
              | inl (ingresses, e) ↦ ground (arith, k, e, Fixed-replicate x s')
            ]
      ]

  Fixed-secret : (key : String) → Fixed api (sync_secret_key api key)
  unfolding sync_secret_key cert_broker.Secret.Sync.sync_names
  Fixed-secret key s = elim (Result-cases (api.split_meta_namespace_key key)) [
    | inr (f, k) ↦ ground (arith, k)
    | inl ((namespace, name), k) ↦
        let read = api.control_secret namespace name s.world in
        elim (Result-cases read.0) [
          | inr (f, e) ↦ ground (arith, k, e)
          | inl (x, e) ↦ ground (
            arith,
            k,
            e,
            Fixed-sync_secret x (split_namespace name) (record s { world = read.1 }),
          )
        ]
  ]

  module _ (extensions_version : String) where
    Fixed-replicate_event :
        (namespace : String) (event : Event) (target : String × String)
        → Fixed api (replicate_event api extensions_version namespace event target)
    unfolding replicate_event
    Fixed-replicate_event namespace event (ing_namespace, ing_name) s =
        let read = api.target_ingress ing_namespace ing_name s.world in
        elim (Result-cases read.0) [
          | inr (f, e) ↦ ground (arith, e)
          | inl (ing, e) ↦
              let recorded =
                (api.record_event ing event.kind event.reason event.message read.1).1 in
              elim (Option-cases (api.update_event namespace (counted event) recorded).0) [
                | inl g ↦ ground (arith, e, g)
                | inr (x, g) ↦ ground (arith, e, g)
              ]
        ]

    Fixed-visit_owners :
        (namespace : String) (event : Event) (owners : List OwnerReference)
        → Fixed api (visit_owners api extensions_version namespace event owners)
    unfolding visit_owners
    Fixed-visit_owners namespace event [] s = refl
    Fixed-visit_owners namespace event (owner ∷ owners) s =
        let rep =
          replicate_event api extensions_version namespace event (split_namespace owner.name) s in
        let q = Fixed-replicate_event namespace event (split_namespace owner.name) s in
        elim (Bool-cases (owner.api_version == extensions_version && owner.kind == ingress_kind)) [
          | inr b ↦ ground (arith, b, Fixed-visit_owners namespace event owners s)
          | inl b ↦ elim (Outcome-cases rep.0) [
            | inl (none, e) ↦
                ground (arith, b, e, q, Fixed-visit_owners namespace event owners rep.1)
            | inl (some x, e) ↦ ground (arith, b, e, q)
            | inr e ↦ ground (arith, b, e, q)
          ]
        ]

    Fixed-sync_event :
        (namespace : String) (event : Event)
        → Fixed api (sync_event api extensions_version namespace event)
    unfolding sync_event
    Fixed-sync_event namespace event s =
        let read =
          api.control_certificate event.involved_object.namespace event.involved_object.name
            s.world in
        let s' : Broker api.World = record s { world = read.1 } in
        elim (Result-cases read.0) [
          | inr (f, e) ↦ ground (arith, e)
          | inl (Certificate.nil, e) ↦ ground (arith, e)
          | inl (Certificate.unstructured owners, e) ↦
              ground (arith, e, Fixed-visit_owners namespace event owners s')
          | inl (Certificate.foreign, e) ↦ ground (arith, e)
        ]

    Fixed-event : (key : String) → Fixed api (sync_event_key api extensions_version key)
    unfolding sync_event_key cert_broker.Events.Sync.sync_names
    Fixed-event key s = elim (Result-cases (api.split_meta_namespace_key key)) [
      | inr (f, k) ↦ ground (arith, k)
      | inl ((namespace, name), k) ↦
          let read = api.control_event namespace name s.world in
          elim (Result-cases read.0) [
            | inr (f, e) ↦ ground (arith, k, e)
            | inl (event, e) ↦
                ground (arith, k, e, Fixed-sync_event namespace event (record s { world = read.1 }))
          ]
    ]

  module _ (c : Controller) where
    Fixed-update_annotations :
        (namespace : String) (i : Ingress) → Fixed api (update_annotations api c namespace i)
    unfolding update_annotations
    Fixed-update_annotations namespace i s =
        let read = api.range (create_ingress_annotations c.ingress_class s.template) s.world in
        elim (Outcome-cases (override read.0 i.annotations)) [
          | inl (annotations, e) ↦ ground (arith, e)
          | inr e ↦ ground (arith, e)
        ]

    Fixed-clean : (i : Ingress) → Fixed api (cert_broker.Cleaner.Sync.clean_up api c i)
    Fixed-clean i s =
        let done = clean_up_ingress_and_tls_secrets api i s in
        let q = Fixed-clean_up api i s in
        elim (Outcome-cases done.0) [
          | inl (x, e) ↦ ground (arith, e, q)
          | inr e ↦ ground (arith, e, q)
        ]

    Fixed-sync_control :
        (namespace : String) (i : Ingress) (target : String × String)
        → Fixed api (sync_control api c namespace i target)
    unfolding sync_control check_target
    Fixed-sync_control namespace i (target_namespace, target_name) s =
        let read = api.target_ingress target_namespace target_name s.world in
        let s' : Broker api.World = record s { world = read.1 } in
        elim (Result-cases read.0) [
          | inr (f, e) ↦ ground (arith, e, Fixed-clean i s')
          | inl (t, e) ↦
              ground (arith, e, Fixed-clean i s', Fixed-update_annotations namespace i s')
        ]

    Fixed-cleaner : (key : String) → Fixed api (sync_handler api c key)
    unfolding sync_handler cert_broker.Cleaner.Sync.sync_names
    Fixed-cleaner key s = elim (Result-cases (api.split_meta_namespace_key key)) [
      | inr (f, k) ↦ ground (arith, k)
      | inl ((namespace, name), k) ↦
          let read = api.control_ingress namespace name s.world in
          elim (Result-cases read.0) [
            | inr (f, e) ↦ ground (arith, k, e)
            | inl (i, e) ↦ ground (
              arith,
              k,
              e,
              Fixed-sync_control namespace i (split_namespace name) (record s { world = read.1 }),
            )
          ]
    ]

configured-Turn :
    {api : Api} {Changes : api.World → api.World → Type 0} {h : Handlers} {s s' : Broker api.World}
    → Turn api Changes h s s'
    → configured s' ≡ configured s
configured-Turn {api} {h = h} (ingress_turn key s) = Fixed-sync_ingress api h.ingress key s
configured-Turn {api} (secret_turn key s) = Fixed-secret api key s
configured-Turn {api} {h = h} (event_turn key s) = Fixed-event api h.extensions_version key s
configured-Turn {api} {h = h} (cleaner_turn key s) = Fixed-cleaner api h.cleaner key s
configured-Turn (world_turn w s c) = refl

configured-Turns :
    {api : Api} {Changes : api.World → api.World → Type 0} {h : Handlers} {s s' : Broker api.World}
    → Turns api Changes h s s'
    → configured s' ≡ configured s
configured-Turns none_yet = refl
configured-Turns (and_then run turn) = configured-Turn turn ∙ configured-Turns run

-- Whatever the calls do, after any turns the annotations of the template have its cluster issuer and
-- its challenge type of before.
pub Turns-issuer :
    (api : Api) (Changes : api.World → api.World → Type 0) (h : Handlers) (s s' : Broker api.World)
    (ingress_class : String)
    → Turns api Changes h s s'
    → (lookup cluster_issuer_key (annotation_pairs ingress_class s'.template)
        ≡ some s.template.issuer_name)
      × (lookup challenge_type_key (annotation_pairs ingress_class s'.template)
          ≡ some s.template.challenge_type)
Turns-issuer api Changes h s s' ingress_class run =
    let e = configured-Turns run in
    (
      lookup-annotation_pairs ingress_class s'.template cluster_issuer_key
          ∙ ap (λ (p : String × String). some p.0) e,
      lookup-annotation_pairs ingress_class s'.template challenge_type_key
          ∙ ap (λ (p : String × String). some p.1) e,
    )
