-- ===== src/Ingress/Sync/Totality.antt =====
-- pkg/ingress/sync.go: Sync where the clusters answer every call.
use cert_broker.Base.{
  String, ◌≡◌, ◌≢◌, refl, sym, ap, ◌∙◌, arith, none, some, [], ◌∷◌, inl, inr, ok,
}
use cert_broker.Base.{Bool-cases, Result-cases}
use cert_broker.Base.Exec.{returned}
use cert_broker.Base.Slice.{Slice}
use cert_broker.Base.GoMap.{GoMap, GoMap-cases, insert}
use cert_broker.Kube.{Ingress, IngressTls}
use cert_broker.Kube.Api.{Api}
use cert_broker.Kube.Store.{Store}
use cert_broker.Kube.Laws.{IsLawful, IsFresh}
use cert_broker.Kube.Reliable.{IsReliable}
use cert_broker.Broker.{Broker}
use cert_broker.Naming.{create_name_for_control_cluster}
use cert_broker.Template.{create_control_ingress, dns_provider_key}
use cert_broker.Cleanup.Laws.{clean_up_ingress_and_tls_secrets-total}
use cert_broker.Ingress.Prefix.{prefix_with_namespace, deep_equal}
use cert_broker.Ingress.CopyTls.{copy_tls}
use cert_broker.Ingress.CopyTls.Effects.{quiet}
use cert_broker.Ingress.CopyTls.Order.{IsWellConfigured, copy_tls-selection}
use cert_broker.Ingress.Sync.{
  Handler, clean_up_ingress_and_secrets, sync_existing, sync_names, sync, fill_template, create_new,
  write_update, create_ingress, update_ingress,
}
use cert_broker.Ingress.Sync.Effects.{selected, copied_ingress}
use cert_broker.Ingress.Sync.Refinement.{synced, sync_names_effect}

module _ (api : Api) (reliable : IsReliable api) (h : Handler) where
  create_new-total :
      (name : String) (source : Ingress) (sel : Slice IngressTls × String) (s : Broker api.World)
      → (create_new api h name source sel s).0 ≡ returned none
  unfolding create_new fill_template create_control_ingress
  create_new-total name source (Slice.nil, p) s = ground arith
  create_new-total name source (Slice.made [], p) s = ground arith
  create_new-total name source (Slice.made (entry ∷ tls), p) s =
      let (t, ing) = copied_ingress h s.template name source (Slice.made (entry ∷ tls), p) in
      ground (arith, reliable.creates h.resource_namespace ing s.world)

  write_update-total :
      (target_ing control_ing : Ingress) (sel : Slice IngressTls × String) (s : Broker api.World)
      → control_ing.annotations ≢ GoMap.nil
      → (write_update api h target_ing control_ing sel s).0 ≡ returned none
  unfolding write_update
  write_update-total target_ing control_ing (tls, p) s a =
      elim (GoMap-cases control_ing.annotations) [
        | inl e ↦ absurd (a e)
        | inr (m, e) ↦
            let ing : Ingress = record control_ing {
              tls = prefix_with_namespace tls target_ing.namespace;
              annotations = GoMap.made (insert dns_provider_key p m);
            } in
            ground (arith, e, reliable.updates h.resource_namespace ing s.world)
      ]

  clean_up-total :
      (name : String) (s : Broker api.World)
      → (clean_up_ingress_and_secrets api h name s).0 ≡ returned none
  unfolding clean_up_ingress_and_secrets
  clean_up-total name s =
      let read = api.control_ingress h.resource_namespace name s.world in
      elim (Result-cases read.0) [
        | inl (c, e) ↦ ground (
          arith,
          e,
          clean_up_ingress_and_tls_secrets-total api reliable.ingress_deletes
              reliable.secret_deletes c (record s { world = read.1 }),
        )
        | inr (x, e) ↦
            ground (arith, e, reliable.control_reads h.resource_namespace name s.world x e)
      ]

  module _ (fit : IsWellConfigured api h.domain_to_dns_provider) where
    create_ingress-total :
        (name : String) (source : Ingress) (s : Broker api.World)
        → (create_ingress api h name source s).0 ≡ returned none
    unfolding create_ingress
    create_ingress-total name source s =
        let c = copy_tls api h.domain_to_dns_provider source s in
        ground (
          arith,
          (copy_tls-selection api h.domain_to_dns_provider fit source s).0,
          create_new-total name source (selected h source) c.1,
        )

    update_ingress-total :
        (target_ing control_ing : Ingress) (s : Broker api.World)
        → control_ing.annotations ≢ GoMap.nil
        → (update_ingress api h target_ing control_ing s).0 ≡ returned none
    unfolding update_ingress
    update_ingress-total target_ing control_ing s a =
        let c = copy_tls api h.domain_to_dns_provider target_ing s in
        elim (Bool-cases (deep_equal target_ing.tls control_ing.tls target_ing.namespace)) [
          | inl d ↦ rw d refl
          | inr d ↦ ground (
            arith,
            d,
            (copy_tls-selection api h.domain_to_dns_provider fit target_ing s).0,
            write_update-total target_ing control_ing (selected h target_ing) c.1 a,
          )
        ]

    sync_existing-total :
        (name : String) (target_ing : Ingress) (s : Broker api.World)
        → ((c : Ingress)
            → (api.control_ingress h.resource_namespace name s.world).0 ≡ ok c
            → c.annotations ≢ GoMap.nil)
        → (sync_existing api h name target_ing s).0 ≡ returned none
    unfolding sync_existing
    sync_existing-total name target_ing s a =
        let read = api.control_ingress h.resource_namespace name s.world in
        let s' : Broker api.World = record s { world = read.1 } in
        elim (Result-cases read.0) [
          | inl (c, e) ↦ ground (arith, e, update_ingress-total target_ing c s' (a c e))
          | inr (x, e) ↦ ground (
            arith,
            e,
            reliable.control_reads h.resource_namespace name s.world x e,
            create_ingress-total name target_ing s',
          )
        ]

module _ (api : Api) (lawful : IsLawful api) (fresh : IsFresh api lawful)
    (reliable : IsReliable api) (h : Handler)
    (fit : IsWellConfigured api h.domain_to_dns_provider) where
  open lawful use {view, view-target_ingress}

  -- No copy in the control cluster has lost its annotations.
  abbrev pub IsAnnotated : Broker api.World → Type 0
  IsAnnotated s =
      (name : String) (c : Ingress)
      → (view s.world).control_ingresses h.resource_namespace name ≡ some c
      → c.annotations ≢ GoMap.nil

  sync_names-total :
      (namespace name : String) (s : Broker api.World)
      → IsAnnotated s
      → (sync_names api h namespace name s).0 ≡ returned none
  unfolding sync_names
  sync_names-total namespace name s a =
      let read = api.target_ingress namespace name s.world in
      let s' : Broker api.World = record s { world = read.1 } in
      let control_name = create_name_for_control_cluster namespace name in
      elim (Result-cases read.0) [
        | inl (t, e) ↦ ground (
          arith,
          e,
          sync_existing-total api reliable h fit control_name t s' (λ c f. a control_name c (
              ap (λ (st : Store). st.control_ingresses h.resource_namespace control_name)
                (sym (view-target_ingress namespace name s.world))
              ∙ fresh.control_found h.resource_namespace control_name read.1 c f)),
        )
        | inr (x, e) ↦ ground (
          arith,
          e,
          reliable.target_reads namespace name s.world x e,
          clean_up-total api reliable h control_name s',
        )
      ]

  -- If the calls keep the laws, the caches are fresh, the clusters fail for what is missing alone,
  -- the domains are well configured and no copy in the control cluster has nil annotations, then
  -- Sync of a key that splits into a namespace and a name returns without an error and leaves,
  -- events aside, the tables of the description: without an Ingress in the target cluster its copy
  -- is removed with its secrets; otherwise a missing copy is created if a host is managed, an
  -- outdated one is updated, and nothing else changes.
  pub sync-total :
      (key namespace name : String) (s : Broker api.World)
      → api.split_meta_namespace_key key ≡ ok (namespace, name)
      → IsAnnotated s
      → let st = quiet (view s.world) in
        ((sync api h key s).0 ≡ returned none)
        × (quiet (view (sync api h key s).1.world)
            ≡ synced h s.template
                (create_name_for_control_cluster namespace name)
                (st.target_ingresses namespace name)
                (st.control_ingresses h.resource_namespace
                  (create_name_for_control_cluster namespace name))
                st)
  unfolding sync
  sync-total key namespace name s e a =
      let done = sync_names-total namespace name s a in
      let run : sync api h key s ≡ sync_names api h namespace name s = ground (arith, e) in
      rw run (done, sync_names_effect api lawful fresh h fit namespace name s done)
