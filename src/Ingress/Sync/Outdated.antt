-- ===== src/Ingress/Sync/Outdated.antt =====
-- pkg/ingress/sync.go: the copy that Sync makes of an Ingress of which not every host is managed.
use cert_broker.Base.{String, false, ◌≡◌, sym, ◌∙◌, ap, Option, none, some, [], ◌∷◌, Any, ok}
use cert_broker.Base.Slice.{Slice, elements}
use cert_broker.Kube.{Ingress, IngressTls}
use cert_broker.Kube.Api.{Api}
use cert_broker.Kube.Store.{Store, place_self}
use cert_broker.Kube.Laws.{IsLawful, IsFresh}
use cert_broker.Kube.Reliable.{IsReliable}
use cert_broker.Broker.{Broker}
use cert_broker.Naming.{create_name_for_control_cluster}
use cert_broker.Template.{IngressTemplate}
use cert_broker.Ingress.Prefix.{deep_equal}
use cert_broker.Ingress.CopyTls.Effects.{quiet}
use cert_broker.Ingress.CopyTls.Order.{IsWellConfigured, provider_of}
use cert_broker.Ingress.Sync.{Handler, sync}
use cert_broker.Ingress.Sync.Effects.{selected, copied_ingress, created}
use cert_broker.Ingress.Sync.Refinement.{synced}
use cert_broker.Ingress.Sync.Totality.{IsAnnotated, sync-total}
use cert_broker.Ingress.Sync.Convergence.{copy_outdated}

module _ (h : Handler) where
  -- Some host of the Ingress has no provider.
  abbrev pub HasUnmanaged : Ingress → Type 0
  HasUnmanaged target_ing =
      Any
        (λ (entry : IngressTls).
          Any (λ host. provider_of h.domain_to_dns_provider host ≡ none) (elements entry.hosts))
        (elements target_ing.tls)

  abbrev copy_at : String → Store → Option Ingress
  copy_at name st = st.control_ingresses h.resource_namespace name

  -- What stands at the place of the copy after the creation, where nothing did before.
  created-copy_at :
      (t : IngressTemplate) (name : String) (source : Ingress) (sel : Slice IngressTls × String)
      (st : Store) (c : Ingress)
      → copy_at name st ≡ none
      → copy_at name (created h t name source sel st).0 ≡ some c
      → (copied_ingress h t name source sel).1 ≡ c
  created-copy_at t name source (Slice.nil, p) st c missing e = absurd (cc (missing, e))
  created-copy_at t name source (Slice.made [], p) st c missing e = absurd (cc (missing, e))
  created-copy_at t name source (Slice.made (entry ∷ tls), p) st c missing e =
      let ing = (copied_ingress h t name source (Slice.made (entry ∷ tls), p)).1 in
      cc (sym (place_self st.control_ingresses h.resource_namespace name (some ing)) ∙ e)

module _ (api : Api) (lawful : IsLawful api) (fresh : IsFresh api lawful)
    (reliable : IsReliable api) (h : Handler)
    (fit : IsWellConfigured api h.domain_to_dns_provider) where
  open lawful use {view}

  -- If the conditions of sync-total hold, the key is that of an Ingress of the target cluster
  -- without a copy, of which some host is not managed, and there is a copy after Sync, then that
  -- copy counts as outdated at once: the test by which updateIngress leaves a copy alone fails.
  pub sync-outdated :
      (key namespace name : String) (target_ing c : Ingress) (s : Broker api.World)
      → api.split_meta_namespace_key key ≡ ok (namespace, name)
      → IsAnnotated api lawful fresh reliable h fit s
      → (view s.world).target_ingresses namespace name ≡ some target_ing
      → let cn = create_name_for_control_cluster namespace name in
        (view s.world).control_ingresses h.resource_namespace cn ≡ none
        → HasUnmanaged h target_ing
        → (view (sync api h key s).1.world).control_ingresses h.resource_namespace cn ≡ some c
        → deep_equal target_ing.tls c.tls target_ing.namespace ≡ false
  sync-outdated key namespace name target_ing c s split a found missing unmanaged made =
      let cn = create_name_for_control_cluster namespace name in
      let st = quiet (view s.world) in
      let v =
        (sync-total api lawful fresh reliable h fit key namespace name s split a).1
        ∙ ap (λ o. synced h s.template cn o (st.control_ingresses h.resource_namespace cn) st) found
        ∙ ap (λ o. synced h s.template cn (some target_ing) o st) missing in
      let at = ap (λ (x : Store). copy_at h cn x) (sym v) ∙ made in
      let same =
        created-copy_at h s.template cn target_ing (selected h target_ing) st c missing at in
      ap (λ (x : Ingress). deep_equal target_ing.tls x.tls target_ing.namespace) (sym same)
      ∙ copy_outdated h s.template cn target_ing unmanaged
