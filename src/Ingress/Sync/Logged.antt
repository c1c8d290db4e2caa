-- ===== src/Ingress/Sync/Logged.antt =====
-- pkg/ingress/sync.go: the failures of a run of Sync.
use cert_broker.Base.{String, refl, arith, [], ◌∷◌, inl, inr}
use cert_broker.Base.{Result-cases, Option-cases, Bool-cases}
use cert_broker.Base.Exec.{Fixes, Outcome-cases}
use cert_broker.Base.Slice.{Slice}
use cert_broker.Base.GoMap.{GoMap, GoMap-cases, insert}
use cert_broker.Kube.{Ingress, IngressTls}
use cert_broker.Kube.Api.{Api}
use cert_broker.Broker.{Broker}
use cert_broker.Naming.{create_name_for_control_cluster}
use cert_broker.Template.{create_control_ingress, dns_provider_key}
use cert_broker.Ingress.CopyTls.{copy_tls}
use cert_broker.Ingress.CopyTls.Seen.{Fixes-copy_tls}
use cert_broker.Ingress.Prefix.{prefix_with_namespace, deep_equal}
use cert_broker.Ingress.Sync.{
  Handler, fill_template, create_new, create_ingress, write_update, update_ingress,
  clean_up_ingress_and_secrets, sync_existing, sync,
}
use cert_broker.Ingress.Sync.Effects.{copied_ingress}
use cert_broker.Kube.Logged.{logged, log, Reports}
use cert_broker.Cleanup.Logged.{Reports-clean_up}

module _ (api : Api) where
  -- copyTLS makes no call that can fail.
  quiet-copy_tls : (domains : GoMap) (ing : Ingress) → Fixes log (copy_tls (logged api) domains ing)
  quiet-copy_tls = Fixes-copy_tls (logged api) log (λ m s. refl) (λ i t r m s. refl)

  module _ (h : Handler) where
    Reports-create_new :
        (name : String) (source : Ingress) (sel : Slice IngressTls × String)
        → Reports api (create_new (logged api) h name source sel)
    unfolding create_new fill_template create_control_ingress
    Reports-create_new name source (Slice.nil, p) s = refl
    Reports-create_new name source (Slice.made [], p) s = refl
    Reports-create_new name source (Slice.made (entry ∷ tls), p) s =
        let ing = (copied_ingress h s.template name source (Slice.made (entry ∷ tls), p)).1 in
        elim (Option-cases ((logged api).create_ingress h.resource_namespace ing s.world).0) [
          | inl e ↦ ground (arith, e)
          | inr (x, e) ↦ ground (arith, e)
        ]

    Reports-create_ingress :
        (name : String) (source : Ingress) → Reports api (create_ingress (logged api) h name source)
    unfolding create_ingress
    Reports-create_ingress name source s =
        let c = copy_tls (logged api) h.domain_to_dns_provider source s in
        let q = quiet-copy_tls h.domain_to_dns_provider source s in
        elim (Outcome-cases c.0) [
          | inl (sel, e) ↦ ground (arith, e, q, Reports-create_new name source sel c.1)
          | inr e ↦ ground (arith, e, q)
        ]

    Reports-write_update :
        (target_ing control_ing : Ingress) (sel : Slice IngressTls × String)
        → Reports api (write_update (logged api) h target_ing control_ing sel)
    unfolding write_update
    Reports-write_update target_ing control_ing (tls, p) s =
        elim (GoMap-cases control_ing.annotations) [
          | inl e ↦ ground (arith, e)
          | inr (m, e) ↦
              let ing : Ingress = record control_ing {
                tls = prefix_with_namespace tls target_ing.namespace;
                annotations = GoMap.made (insert dns_provider_key p m);
              } in
              elim (Option-cases ((logged api).update_ingress h.resource_namespace ing s.world).0) [
                | inl f ↦ ground (arith, e, f)
                | inr (x, f) ↦ ground (arith, e, f)
              ]
        ]

    Reports-update_ingress :
        (target_ing control_ing : Ingress)
        → Reports api (update_ingress (logged api) h target_ing control_ing)
    unfolding update_ingress
    Reports-update_ingress target_ing control_ing s =
        let c = copy_tls (logged api) h.domain_to_dns_provider target_ing s in
        let q = quiet-copy_tls h.domain_to_dns_provider target_ing s in
        elim (Bool-cases (deep_equal target_ing.tls control_ing.tls target_ing.namespace)) [
          | inl d ↦ ground (arith, d)
          | inr d ↦ elim (Outcome-cases c.0) [
            | inl (sel, e) ↦
                ground (arith, d, e, q, Reports-write_update target_ing control_ing sel c.1)
            | inr e ↦ ground (arith, d, e, q)
          ]
        ]

    Reports-clean_up_ingress_and_secrets :
        (name : String) → Reports api (clean_up_ingress_and_secrets (logged api) h name)
    unfolding clean_up_ingress_and_secrets
    Reports-clean_up_ingress_and_secrets name s =
        let read = (logged api).control_ingress h.resource_namespace name s.world in
        elim (Result-cases read.0) [
          | inl (i, e) ↦ ground (arith, e, Reports-clean_up api i (record s { world = read.1 }))
          | inr (x, e) ↦ ground (arith, e)
        ]

    Reports-sync_existing :
        (name : String) (target_ing : Ingress)
        → Reports api (sync_existing (logged api) h name target_ing)
    unfolding sync_existing
    Reports-sync_existing name target_ing s =
        let read = (logged api).control_ingress h.resource_namespace name s.world in
        let s' : Broker (logged api).World = record s { world = read.1 } in
        elim (Result-cases read.0) [
          | inl (i, e) ↦ ground (arith, e, Reports-update_ingress target_ing i s')
          | inr (x, e) ↦ ground (arith, e, Reports-create_ingress name target_ing s')
        ]

    pub Reports-sync : (key : String) → Reports api (sync (logged api) h key)
    unfolding sync cert_broker.Ingress.Sync.sync_names
    Reports-sync key s = elim (Result-cases (api.split_meta_namespace_key key)) [
      | inr (x, k) ↦ ground (arith, k)
      | inl ((namespace, name), k) ↦
          let read = (logged api).target_ingress namespace name s.world in
          let s' : Broker (logged api).World = record s { world = read.1 } in
          let control_name = create_name_for_control_cluster namespace name in
          elim (Result-cases read.0) [
            | inl (i, e) ↦ ground (arith, k, e, Reports-sync_existing control_name i s')
            | inr (x, e) ↦
                ground (arith, k, e, Reports-clean_up_ingress_and_secrets control_name s')
          ]
    ]
