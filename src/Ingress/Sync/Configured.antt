-- ===== src/Ingress/Sync/Configured.antt =====
-- pkg/ingress/sync.go: what Sync leaves of the template that the handlers share.
use cert_broker.Base.{String, refl, arith, List, [], ◌∷◌, inl, inr}
use cert_broker.Base.{Result-cases, Option-cases, Bool-cases}
use cert_broker.Base.Exec.{Exec, Fixes, Outcome-cases}
use cert_broker.Base.Slice.{Slice, elements}
use cert_broker.Base.GoMap.{GoMap, GoMap-cases, insert}
use cert_broker.Kube.{Ingress, IngressTls}
use cert_broker.Kube.Api.{Api}
use cert_broker.Broker.{Broker}
use cert_broker.Naming.{create_name_for_control_cluster}
use cert_broker.Template.{create_control_ingress, dns_provider_key}
use cert_broker.Cleanup.{delete_tls_secrets, clean_up_ingress_and_tls_secrets, blocking}
use cert_broker.Ingress.CopyTls.{copy_tls}
use cert_broker.Ingress.CopyTls.Seen.{Fixes-copy_tls}
use cert_broker.Ingress.Prefix.{prefix_with_namespace, deep_equal}
use cert_broker.Ingress.Sync.{
  Handler, fill_template, create_new, create_ingress, write_update, update_ingress,
  clean_up_ingress_and_secrets, sync_existing, sync as sync_ingress,
}
use cert_broker.Ingress.Sync.Effects.{copied_ingress}

-- The issuer and the challenge type, which the options set.
abbrev pub configured : {W : Type 0} → Broker W → String × String
configured s = (s.template.issuer_name, s.template.challenge_type)

module _ (api : Api) where
  abbrev pub Fixed : {A : Type 0} → Exec (Broker api.World) A → Type 0
  Fixed m = Fixes configured m

  Fixed-delete_tls_secrets :
      (namespace : String) (tls : List IngressTls) → Fixed (delete_tls_secrets api namespace tls)
  unfolding delete_tls_secrets
  Fixed-delete_tls_secrets namespace [] s = refl
  Fixed-delete_tls_secrets namespace (entry ∷ tls) s =
      let done = api.delete_secret namespace entry.secret_name s.world in
      elim (Option-cases (blocking api done.0)) [
        | inl e ↦
            ground (arith, e, Fixed-delete_tls_secrets namespace tls (record s { world = done.1 }))
        | inr (x, e) ↦ ground (arith, e)
      ]

  pub Fixed-clean_up : (ing : Ingress) → Fixed (clean_up_ingress_and_tls_secrets api ing)
  unfolding clean_up_ingress_and_tls_secrets
  Fixed-clean_up ing s =
      let done = api.delete_ingress ing.namespace ing.name s.world in
      elim (Option-cases (blocking api done.0)) [
        | inl e ↦ ground (
          arith,
          e,
          Fixed-delete_tls_secrets ing.namespace (elements ing.tls) (record s { world = done.1 }),
        )
        | inr (x, e) ↦ ground (arith, e)
      ]

  Fixed-copy_tls : (domains : GoMap) (ing : Ingress) → Fixed (copy_tls api domains ing)
  Fixed-copy_tls = Fixes-copy_tls api configured (λ m s. refl) (λ i t r m s. refl)

  module _ (h : Handler) where
    Fixed-create_new :
        (name : String) (source : Ingress) (sel : Slice IngressTls × String)
        → Fixed (create_new api h name source sel)
    unfolding create_new fill_template create_control_ingress
    Fixed-create_new name source (Slice.nil, p) s = refl
    Fixed-create_new name source (Slice.made [], p) s = refl
    Fixed-create_new name source (Slice.made (entry ∷ tls), p) s =
        let ing = (copied_ingress h s.template name source (Slice.made (entry ∷ tls), p)).1 in
        elim (Option-cases (api.create_ingress h.resource_namespace ing s.world).0) [
          | inl e ↦ ground (arith, e)
          | inr (x, e) ↦ ground (arith, e)
        ]

    Fixed-create_ingress :
        (name : String) (source : Ingress) → Fixed (create_ingress api h name source)
    unfolding create_ingress
    Fixed-create_ingress name source s =
        let c = copy_tls api h.domain_to_dns_provider source s in
        let q = Fixed-copy_tls h.domain_to_dns_provider source s in
        elim (Outcome-cases c.0) [
          | inl (sel, e) ↦ ground (arith, e, q, Fixed-create_new name source sel c.1)
          | inr e ↦ ground (arith, e, q)
        ]

    Fixed-write_update :
        (target_ing control_ing : Ingress) (sel : Slice IngressTls × String)
        → Fixed (write_update api h target_ing control_ing sel)
    unfolding write_update
    Fixed-write_update target_ing control_ing (tls, p) s =
        elim (GoMap-cases control_ing.annotations) [
          | inl e ↦ ground (arith, e)
          | inr (m, e) ↦
              let ing : Ingress = record control_ing {
                tls = prefix_with_namespace tls target_ing.namespace;
                annotations = GoMap.made (insert dns_provider_key p m);
              } in
              elim (Option-cases (api.update_ingress h.resource_namespace ing s.world).0) [
                | inl f ↦ ground (arith, e, f)
                | inr (x, f) ↦ ground (arith, e, f)
              ]
        ]

    Fixed-update_ingress :
        (target_ing control_ing : Ingress) → Fixed (update_ingress api h target_ing control_ing)
    unfolding update_ingress
    Fixed-update_ingress target_ing control_ing s =
        let c = copy_tls api h.domain_to_dns_provider target_ing s in
        let q = Fixed-copy_tls h.domain_to_dns_provider target_ing s in
        elim (Bool-cases (deep_equal target_ing.tls control_ing.tls target_ing.namespace)) [
          | inl d ↦ ground (arith, d)
          | inr d ↦ elim (Outcome-cases c.0) [
            | inl (sel, e) ↦
                ground (arith, d, e, q, Fixed-write_update target_ing control_ing sel c.1)
            | inr e ↦ ground (arith, d, e, q)
          ]
        ]

    Fixed-clean_up_ingress_and_secrets :
        (name : String) → Fixed (clean_up_ingress_and_secrets api h name)
    unfolding clean_up_ingress_and_secrets
    Fixed-clean_up_ingress_and_secrets name s =
        let read = api.control_ingress h.resource_namespace name s.world in
        elim (Result-cases read.0) [
          | inl (i, e) ↦ ground (arith, e, Fixed-clean_up i (record s { world = read.1 }))
          | inr (x, e) ↦ ground (arith, e)
        ]

    Fixed-sync_existing :
        (name : String) (target_ing : Ingress) → Fixed (sync_existing api h name target_ing)
    unfolding sync_existing
    Fixed-sync_existing name target_ing s =
        let read = api.control_ingress h.resource_namespace name s.world in
        let s' : Broker api.World = record s { world = read.1 } in
        elim (Result-cases read.0) [
          | inl (i, e) ↦ ground (arith, e, Fixed-update_ingress target_ing i s')
          | inr (x, e) ↦ ground (arith, e, Fixed-create_ingress name target_ing s')
        ]

    pub Fixed-sync_ingress : (key : String) → Fixed (sync_ingress api h key)
    unfolding sync_ingress cert_broker.Ingress.Sync.sync_names
    Fixed-sync_ingress key s = elim (Result-cases (api.split_meta_namespace_key key)) [
      | inr (x, k) ↦ ground (arith, k)
      | inl ((namespace, name), k) ↦
          let read = api.target_ingress namespace name s.world in
          let s' : Broker api.World = record s { world = read.1 } in
          let control_name = create_name_for_control_cluster namespace name in
          elim (Result-cases read.0) [
            | inl (i, e) ↦ ground (arith, k, e, Fixed-sync_existing control_name i s')
            | inr (x, e) ↦ ground (arith, k, e, Fixed-clean_up_ingress_and_secrets control_name s')
          ]
    ]
