-- ===== src/Ingress/Sync/Guarded.antt =====
-- pkg/ingress/sync.go: Sync, with calls that keep an
-- invariant.
use cert_broker.Base.{String, ◌≡◌, ◌≢◌, refl, none, some, [], ◌∷◌, inl, inr, arith}
use cert_broker.Base.{Result-cases, Option-cases, Bool-cases}
use cert_broker.Base.Exec.{returned}
use cert_broker.Base.Slice.{Slice}
use cert_broker.Base.GoMap.{GoMap, GoMap-cases, insert}
use cert_broker.Kube.{Ingress, IngressTls}
use cert_broker.Kube.Api.{Api}
use cert_broker.Kube.Guarded.{IsGuarded}
use cert_broker.Broker.{Broker}
use cert_broker.Naming.{create_name_for_control_cluster}
use cert_broker.Template.{create_control_ingress, dns_provider_key}
use cert_broker.Ingress.CopyTls.{copy_tls}
use cert_broker.Ingress.Prefix.{prefix_with_namespace, deep_equal}
use cert_broker.Ingress.Sync.{
  Handler, fill_template, create_new, write_update, create_ingress, update_ingress,
  clean_up_ingress_and_secrets, sync_existing, sync,
}
use cert_broker.Ingress.Sync.Effects.{copied_ingress}
use cert_broker.Ingress.CopyTls.Guarded.{Safe, Safe-clean_up, Safe-copy_tls}

module _ (api : Api) (Inv : api.World → Type 0) (g : IsGuarded api Inv) where
  module _ (h : Handler) where
    Safe-create_new :
        (name : String) (source : Ingress) (sel : Slice IngressTls × String)
        → Safe api Inv g (create_new api h name source sel)
    unfolding create_new fill_template create_control_ingress
    Safe-create_new name source (Slice.nil, p) s inv = (none, refl, inv)
    Safe-create_new name source (Slice.made [], p) s inv = (none, refl, inv)
    Safe-create_new name source (Slice.made (entry ∷ tls), p) s inv =
        let ing = (copied_ingress h s.template name source (Slice.made (entry ∷ tls), p)).1 in
        let done = api.create_ingress h.resource_namespace ing s.world in
        let inv' =
          g.keeps-create_ingress h.resource_namespace ing s.world (λ f. absurd (cc f)) inv in
        elim (Option-cases done.0) [
          | inl e ↦ rw e (none, refl, g.keeps-record_event source _ _ _ done.1 inv')
          | inr (x, e) ↦ rw e (some x, refl, inv')
        ]

    Safe-create_ingress :
        (name : String) (source : Ingress) → Safe api Inv g (create_ingress api h name source)
    unfolding create_ingress
    Safe-create_ingress name source s inv =
        let s' = (copy_tls api h.domain_to_dns_provider source s).1 in
        let (sel, e, inv') = Safe-copy_tls api Inv g h.domain_to_dns_provider source s inv in
        rw e (Safe-create_new name source sel s' inv')

    Safe-write_update :
        (target_ing control_ing : Ingress) (sel : Slice IngressTls × String)
        → control_ing.annotations ≢ GoMap.nil
        → Safe api Inv g (write_update api h target_ing control_ing sel)
    unfolding write_update
    Safe-write_update target_ing control_ing (tls, p) annotated s inv =
        elim (GoMap-cases control_ing.annotations) [
          | inl e ↦ absurd (annotated e)
          | inr (m, e) ↦
              let ing : Ingress = record control_ing {
                tls = prefix_with_namespace tls target_ing.namespace;
                annotations = GoMap.made (insert dns_provider_key p m);
              } in
              let done = api.update_ingress h.resource_namespace ing s.world in
              let inv' =
                g.keeps-update_ingress h.resource_namespace ing s.world (λ f. absurd (cc f)) inv in
              rw e (elim (Option-cases done.0) [
                | inl d ↦ rw d (none, refl, g.keeps-record_event target_ing _ _ _ done.1 inv')
                | inr (x, d) ↦ rw d (some x, refl, inv')
              ])
        ]

    Safe-update_ingress :
        (target_ing control_ing : Ingress)
        → control_ing.annotations ≢ GoMap.nil
        → Safe api Inv g (update_ingress api h target_ing control_ing)
    unfolding update_ingress
    Safe-update_ingress target_ing control_ing annotated s inv =
        let s' = (copy_tls api h.domain_to_dns_provider target_ing s).1 in
        elim (Bool-cases (deep_equal target_ing.tls control_ing.tls target_ing.namespace)) [
          | inl d ↦ rw d (none, refl, inv)
          | inr d ↦
              let (sel, e, inv') =
                Safe-copy_tls api Inv g h.domain_to_dns_provider target_ing s inv in
              rw (d, e) (Safe-write_update target_ing control_ing sel annotated s' inv')
        ]

    Safe-clean_up_ingress_and_secrets :
        (name : String) → Safe api Inv g (clean_up_ingress_and_secrets api h name)
    unfolding clean_up_ingress_and_secrets
    Safe-clean_up_ingress_and_secrets name s inv =
        let read = api.control_ingress h.resource_namespace name s.world in
        let inv' = g.keeps-control_ingress h.resource_namespace name s.world inv in
        elim (Result-cases read.0) [
          | inl (i, e) ↦ rw e (Safe-clean_up api Inv g i (record s { world = read.1 }) inv')
          | inr (x, e) ↦ rw e (_, refl, inv')
        ]

    Safe-sync_existing :
        (name : String) (target_ing : Ingress)
        → Safe api Inv g (sync_existing api h name target_ing)
    unfolding sync_existing
    Safe-sync_existing name target_ing s inv =
        let read = api.control_ingress h.resource_namespace name s.world in
        let inv' = g.keeps-control_ingress h.resource_namespace name s.world inv in
        let s' : Broker api.World = record s { world = read.1 } in
        elim (Result-cases read.0) [
          | inl (i, e) ↦
              let annotated = g.reads_annotated h.resource_namespace name s.world i inv e in
              rw e (Safe-update_ingress target_ing i annotated s' inv')
          | inr (x, e) ↦ elim (Bool-cases (api.is_not_found x)) [
            | inl d ↦ rw (e, d) (Safe-create_ingress name target_ing s' inv')
            | inr d ↦ rw (e, d) (some x, refl, inv')
          ]
        ]

    pub Safe-sync : (key : String) → Safe api Inv g (sync api h key)
    unfolding sync cert_broker.Ingress.Sync.sync_names
    Safe-sync key s inv = elim (Result-cases (api.split_meta_namespace_key key)) [
      | inr (x, k) ↦
          let run : sync api h key s ≡ (returned none, s) = ground (arith, k) in
          rw run (none, refl, inv)
      | inl ((namespace, name), k) ↦
          let read = api.target_ingress namespace name s.world in
          let inv' = g.keeps-target_ingress namespace name s.world inv in
          let s' : Broker api.World = record s { world = read.1 } in
          let control_name = create_name_for_control_cluster namespace name in
          elim (Result-cases read.0) [
            | inl (i, e) ↦
                let run : sync api h key s ≡ sync_existing api h control_name i s' =
                  ground (arith, k, e) in
                rw run (Safe-sync_existing control_name i s' inv')
            | inr (x, e) ↦ elim (Bool-cases (api.is_not_found x)) [
              | inl d ↦
                  let run : sync api h key s ≡ clean_up_ingress_and_secrets api h control_name s' =
                    ground (arith, k, e, d) in
                  rw run (Safe-clean_up_ingress_and_secrets control_name s' inv')
              | inr d ↦
                  let run : sync api h key s ≡ (returned (some x), s') = ground (arith, k, e, d) in
                  rw run (some x, refl, inv')
            ]
          ]
    ]
