-- ===== src/Ingress/Sync/Effects.antt =====
-- pkg/ingress/sync.go: what createIngress and updateIngress do to the tables of the clusters.
use cert_broker.Base.{
  String, false, ◌≡◌, refl, ◌∙◌, ap, arith, none, some, [], ◌∷◌, inl, inr, if◌then◌else◌,
}
use cert_broker.Base.{Option-cases, Bool-cases}
use cert_broker.Base.Exec.{returned, panicked}
use cert_broker.Base.Slice.{Slice, elements}
use cert_broker.Base.GoMap.{GoMap, GoMap-cases, insert}
use cert_broker.Kube.{Ingress, IngressTls}
use cert_broker.Kube.Api.{Api}
use cert_broker.Kube.Store.{Store, put_control_ingress}
use cert_broker.Kube.Laws.{IsLawful}
use cert_broker.Broker.{Broker}
use cert_broker.Template.{IngressTemplate, create_control_ingress, dns_provider_key}
use cert_broker.Ingress.Prefix.{prefix_with_namespace, deep_equal}
use cert_broker.Ingress.CopyTls.{copy_tls}
use cert_broker.Ingress.CopyTls.Selection.{selection}
use cert_broker.Ingress.CopyTls.Order.{IsWellConfigured, provider_of, copy_tls-selection}
use cert_broker.Ingress.CopyTls.Effects.{quiet, quiet-copy_tls}
use cert_broker.Ingress.Sync.{
  Handler, create_ingress, update_ingress, create_new, write_update, fill_template,
}

module _ (h : Handler) where
  -- The managed TLS entries of an Ingress and their provider.
  abbrev pub selected : Ingress → Slice IngressTls × String
  selected ing = selection (provider_of h.domain_to_dns_provider) (elements ing.tls)

  -- The Ingress that is created for a selection of TLS entries and their provider.
  abbrev pub copied_ingress :
      IngressTemplate → String → Ingress → Slice IngressTls × String → IngressTemplate × Ingress
  copied_ingress t name source (tls, provider) =
      create_control_ingress h.ingress_class t name h.resource_namespace provider
        (prefix_with_namespace tls source.namespace)

  -- The tables and the template after a creation; without a TLS entry there is none.
  abbrev pub created :
      IngressTemplate
      → String
      → Ingress
      → Slice IngressTls × String
      → Store
      → Store × IngressTemplate
  created t name source (tls, provider) st = elim (elements tls) [
    | [] ↦ (st, t)
    | _ ∷ _ ↦
        let (t', ing) = copied_ingress t name source (tls, provider) in
        (put_control_ingress h.resource_namespace name (some ing) st, t')
  ]

  -- The tables after an update of an Ingress whose annotations are not nil.
  abbrev pub updated : Ingress → Ingress → Slice IngressTls × String → Store → Store
  updated target_ing control_ing (tls, provider) st = elim control_ing.annotations [
    | GoMap.nil ↦ st
    | GoMap.made m ↦
        put_control_ingress h.resource_namespace control_ing.name
          (some (record control_ing {
            tls = prefix_with_namespace tls target_ing.namespace;
            annotations = GoMap.made (insert dns_provider_key provider m);
          }))
          st
  ]

module _ (api : Api) (lawful : IsLawful api) (h : Handler) where
  open lawful use {view, view-create_ingress, view-update_ingress, view-record_event}

  noticed :
      (ing : Ingress) (message : String) (w : api.World)
      → quiet (view (api.record_event ing "Normal" "Certificate" message w).1) ≡ quiet (view w)
  noticed ing message w = ap quiet (view-record_event ing "Normal" "Certificate" message w)

  create_new_effect :
      (name : String) (source : Ingress) (sel : Slice IngressTls × String) (s : Broker api.World)
      → (create_new api h name source sel s).0 ≡ returned none
      → let (st, t) = created h s.template name source sel (quiet (view s.world)) in
        (quiet (view (create_new api h name source sel s).1.world) ≡ st)
        × ((create_new api h name source sel s).1.template ≡ t)
  unfolding create_new fill_template create_control_ingress
  create_new_effect name source (Slice.nil, p) s r = (refl, refl)
  create_new_effect name source (Slice.made [], p) s r = (refl, refl)
  create_new_effect name source (Slice.made (entry ∷ tls), p) s r =
      let (t, ing) = copied_ingress h s.template name source (Slice.made (entry ∷ tls), p) in
      let post = api.create_ingress h.resource_namespace ing s.world in
      elim (Option-cases post.0) [
        | inl e ↦ (
          ground (
            arith,
            e,
            noticed source "Certificate request initiated" post.1
                ∙ ap quiet (view-create_ingress h.resource_namespace ing s.world e),
          ),
          ground (arith, e),
        )
        | inr (x, e) ↦ absurd (ground (arith, e))
      ]

  -- The same, from what is known of the state.
  create_new_from :
      (name : String) (source : Ingress) (sel : Slice IngressTls × String) (s : Broker api.World)
      (t : IngressTemplate) (st : Store)
      → s.template ≡ t
      → quiet (view s.world) ≡ st
      → (create_new api h name source sel s).0 ≡ returned none
      → let (st', t') = created h t name source sel st in
        (quiet (view (create_new api h name source sel s).1.world) ≡ st')
        × ((create_new api h name source sel s).1.template ≡ t')
  create_new_from name source sel s t st p q r =
      rw (← p, ← q) (create_new_effect name source sel s r)

  write_update_effect :
      (target_ing control_ing : Ingress) (sel : Slice IngressTls × String) (s : Broker api.World)
      → (write_update api h target_ing control_ing sel s).0 ≡ returned none
      → (quiet (view (write_update api h target_ing control_ing sel s).1.world)
          ≡ updated h target_ing control_ing sel (quiet (view s.world)))
        × ((write_update api h target_ing control_ing sel s).1.template ≡ s.template)
  unfolding write_update
  write_update_effect target_ing control_ing (tls, p) s r =
      elim (GoMap-cases control_ing.annotations) [
        | inl e ↦ absurd (ground (arith, e))
        | inr (m, e) ↦
            let ing : Ingress = record control_ing {
              tls = prefix_with_namespace tls target_ing.namespace;
              annotations = GoMap.made (insert dns_provider_key p m);
            } in
            let put = api.update_ingress h.resource_namespace ing s.world in
            elim (Option-cases put.0) [
              | inl f ↦ (
                ground (
                  arith,
                  e,
                  f,
                  noticed target_ing "Certificate update requested" put.1
                      ∙ ap quiet (view-update_ingress h.resource_namespace ing s.world f),
                ),
                ground (arith, e, f),
              )
              | inr (x, f) ↦ absurd (ground (arith, e, f))
            ]
      ]

  write_update_from :
      (target_ing control_ing : Ingress) (sel : Slice IngressTls × String) (s : Broker api.World)
      (t : IngressTemplate) (st : Store)
      → s.template ≡ t
      → quiet (view s.world) ≡ st
      → (write_update api h target_ing control_ing sel s).0 ≡ returned none
      → (quiet (view (write_update api h target_ing control_ing sel s).1.world)
          ≡ updated h target_ing control_ing sel st)
        × ((write_update api h target_ing control_ing sel s).1.template ≡ t)
  write_update_from target_ing control_ing sel s t st p q r =
      rw (← p, ← q) (write_update_effect target_ing control_ing sel s r)

  module _ (fit : IsWellConfigured api h.domain_to_dns_provider) where
    -- If the calls keep the laws, the domains are well configured and createIngress reports no
    -- error, then, events aside, the control cluster has the copy with the managed TLS entries, and
    -- the template has their provider; without a managed host the tables and the template are those
    -- before.
    pub create_ingress_effect :
        (name : String) (source : Ingress) (s : Broker api.World)
        → (create_ingress api h name source s).0 ≡ returned none
        → let (st, t) =
            created h s.template name source (selected h source) (quiet (view s.world)) in
          (quiet (view (create_ingress api h name source s).1.world) ≡ st)
          × ((create_ingress api h name source s).1.template ≡ t)
    unfolding create_ingress
    create_ingress_effect name source s r =
        let c = copy_tls api h.domain_to_dns_provider source s in
        let l = copy_tls-selection api h.domain_to_dns_provider fit source s in
        let run : create_ingress api h name source s
            ≡ create_new api h name source (selected h source) c.1 =
          ground (arith, l.0) in
        rw run (
          create_new_from name source (selected h source) c.1 s.template (quiet (view s.world)) l.1
            (quiet-copy_tls api lawful h.domain_to_dns_provider source s) (rw run at r))

    -- If the calls keep the laws, the domains are well configured and updateIngress reports no
    -- error, then, events aside, either the TLS sections agree and the tables are those before, or
    -- the Ingress of the control cluster is stored with the managed TLS entries and their provider;
    -- the template is the one before.
    pub update_ingress_effect :
        (target_ing control_ing : Ingress) (s : Broker api.World)
        → (update_ingress api h target_ing control_ing s).0 ≡ returned none
        → (quiet (view (update_ingress api h target_ing control_ing s).1.world) ≡ (
            if deep_equal target_ing.tls control_ing.tls target_ing.namespace
            then quiet (view s.world)
            else updated h target_ing control_ing (selected h target_ing) (quiet (view s.world))))
          × ((update_ingress api h target_ing control_ing s).1.template ≡ s.template)
    unfolding update_ingress
    update_ingress_effect target_ing control_ing s r =
        let c = copy_tls api h.domain_to_dns_provider target_ing s in
        let l = copy_tls-selection api h.domain_to_dns_provider fit target_ing s in
        elim (Bool-cases (deep_equal target_ing.tls control_ing.tls target_ing.namespace)) [
          | inl d ↦ rw d (refl, refl)
          | inr d ↦
              let run : update_ingress api h target_ing control_ing s
                  ≡ write_update api h target_ing control_ing (selected h target_ing) c.1 =
                ground (arith, d, l.0) in
              rw (run, d)
                (write_update_from target_ing control_ing (selected h target_ing) c.1 s.template
                  (quiet (view s.world)) l.1
                  (quiet-copy_tls api lawful h.domain_to_dns_provider target_ing s) (rw run at r))
        ]

module _ (api : Api) (h : Handler) (fit : IsWellConfigured api h.domain_to_dns_provider) where
  -- If the domains are well configured, the annotations of the Ingress in the control cluster are
  -- nil and its TLS section is outdated, then updateIngress panics.
  pub update_ingress-panicked :
      (target_ing control_ing : Ingress) (s : Broker api.World)
      → control_ing.annotations ≡ GoMap.nil
      → deep_equal target_ing.tls control_ing.tls target_ing.namespace ≡ false
      → (update_ingress api h target_ing control_ing s).0 ≡ panicked
  unfolding update_ingress write_update
  update_ingress-panicked target_ing control_ing s e d =
      ground (arith, e, d, (copy_tls-selection api h.domain_to_dns_provider fit target_ing s).0)
