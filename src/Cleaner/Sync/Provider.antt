-- ===== src/Cleaner/Sync/Provider.antt =====
-- pkg/cleaner/controller.go and pkg/ingress/sync.go: the template that both controllers share.
use cert_broker.Base.{String, true, ◌≡◌, refl, ◌∙◌, ap, arith, none, some, List, ◌∷◌}
use cert_broker.Base.Exec.{returned}
use cert_broker.Base.Slice.{elements}
use cert_broker.Base.Text.{nonempty}
use cert_broker.Base.GoMap.{GoMap, Pairs, find, lookup}
use cert_broker.Kube.{Ingress, IngressTls}
use cert_broker.Kube.Api.{Api}
use cert_broker.Kube.Laws.{IsLawful}
use cert_broker.Broker.{Broker}
use cert_broker.Template.{annotation_pairs, create_control_ingress, dns_provider_key}
use cert_broker.Template.Laws.{lookup-annotation_pairs, provider_entry}
use cert_broker.Ingress.CopyTls.Order.{RangesOver, IsWellConfigured}
use cert_broker.Ingress.Sync.{Handler, create_ingress}
use cert_broker.Ingress.Sync.Effects.{selected, create_ingress_effect}
use cert_broker.Cleaner.Sync.{Controller, update_annotations}
use cert_broker.Cleaner.Sync.Annotations.{ranged, or_else, update_annotations-lookup}

module _ (api : Api) (lawful : IsLawful api) (h : Handler)
    (fit : IsWellConfigured api h.domain_to_dns_provider) where
  -- The template keeps the provider of the Ingress that was created.
  provider_of_template :
      (name : String) (source : Ingress) (s : Broker api.World) (entry : IngressTls)
      (tls : List IngressTls)
      → elements (selected h source).0 ≡ entry ∷ tls
      → (create_ingress api h name source s).0 ≡ returned none
      → (create_ingress api h name source s).1.template.dns01_provider ≡ (selected h source).1
  unfolding create_control_ingress
  provider_of_template name source s entry tls e r =
      ground (arith, e, (create_ingress_effect api lawful h fit name source s r).1)

  -- If the calls keep the laws, the domains are well configured, createIngress has created a copy
  -- with a provider that is not empty, the cleaner then updates the annotations, which are not nil,
  -- of any Ingress without an error, and its range visits every annotation of the template once,
  -- then that Ingress is stored with the provider of the copy, whichever provider it had before.
  pub update_annotations-after-create_ingress :
      (name : String) (source : Ingress) (s : Broker api.World) (entry : IngressTls)
      (tls : List IngressTls) (c : Controller) (namespace : String) (control_ing : Ingress)
      (m : Pairs)
      → elements (selected h source).0 ≡ entry ∷ tls
      → nonempty (selected h source).1 ≡ true
      → (create_ingress api h name source s).0 ≡ returned none
      → let s' = (create_ingress api h name source s).1 in
        RangesOver (ranged api c s') (annotation_pairs c.ingress_class s'.template)
        → control_ing.annotations ≡ GoMap.made m
        → (update_annotations api c namespace control_ing s').0 ≡ returned (true, none)
        → (ing : Ingress) × ((lawful.view
                (update_annotations api c namespace control_ing s').1.world).control_ingresses
              namespace control_ing.name
            ≡ some ing)
          × (find ing.annotations dns_provider_key ≡ some (selected h source).1)
  update_annotations-after-create_ingress name source s entry tls c namespace control_ing m e n r
        ranges a done =
      let s' = (create_ingress api h name source s).1 in
      let (ing, stored, read) =
        update_annotations-lookup api lawful c namespace control_ing m s' ranges a done in
      let q : s'.template.dns01_provider ≡ (selected h source).1 =
        provider_of_template name source s entry tls e r in
      let entry' : provider_entry s'.template ≡ some (selected h source).1 = rw q (rw n refl) in
      let written : lookup dns_provider_key (annotation_pairs c.ingress_class s'.template)
          ≡ some (selected h source).1 =
        lookup-annotation_pairs c.ingress_class s'.template dns_provider_key ∙ entry' in
      (ing, stored, read dns_provider_key ∙ ap (λ o. or_else o (lookup dns_provider_key m)) written)
