-- ===== src/Ingress/Sync/Settled.antt =====
-- pkg/ingress/sync.go: two runs of Sync in a row.
use cert_broker.Base.{
  String, ◌==◌, true, ◌≡◌, ◌≢◌, refl, sym, ap, ◌∙◌, arith, eq_refl, none, some, [], inl, inr, ok,
  All, Bool-cases, List-cases,
}
use cert_broker.Base.Exec.{returned}
use cert_broker.Base.Slice.{Slice, elements}
use cert_broker.Base.GoMap.{GoMap}
use cert_broker.Kube.{Ingress}
use cert_broker.Kube.Api.{Api}
use cert_broker.Kube.Store.{Store, Table, place, place_self, put_control_ingress}
use cert_broker.Kube.Laws.{IsLawful, IsFresh}
use cert_broker.Kube.Reliable.{IsReliable}
use cert_broker.Broker.{Broker}
use cert_broker.Naming.{create_name_for_control_cluster}
use cert_broker.Template.{IngressTemplate, create_control_ingress}
use cert_broker.Ingress.CopyTls.Selection.{uniform, entry_providers}
use cert_broker.Ingress.CopyTls.Effects.{quiet}
use cert_broker.Ingress.CopyTls.Order.{IsWellConfigured, provider_of}
use cert_broker.Ingress.Sync.{Handler, sync}
use cert_broker.Ingress.Sync.Effects.{selected, copied_ingress, created}
use cert_broker.Ingress.Sync.Refinement.{synced}
use cert_broker.Ingress.Sync.Convergence.{IsWhole, copy_up_to_date, selection-managed}
use cert_broker.Ingress.Sync.Totality.{IsAnnotated, sync-total}

annotated_place :
    (t : Table Ingress) (ns n : String) (ing : Ingress)
    → ing.annotations ≢ GoMap.nil
    → ((n' : String) (c : Ingress) → t ns n' ≡ some c → c.annotations ≢ GoMap.nil)
    → (n' : String) (c : Ingress) → place t ns n (some ing) ns n' ≡ some c
    → c.annotations ≢ GoMap.nil
annotated_place t ns n ing a all n' c e = elim (Bool-cases (n == n')) [
  | inl m ↦ let same : ing ≡ c = ground (arith, e, m, eq_refl ns) in rw (← same) a
  | inr m ↦ all n' c (ground (arith, e, m, eq_refl ns))
]

-- Every TLS entry of the Ingress has hosts, all managed by one provider, and there is an entry.
pub record IsManageable (h : Handler) (target_ing : Ingress) : Type 0 where
  pub whole : All (IsWhole (provider_of h.domain_to_dns_provider)) (elements target_ing.tls)
  pub one_provider :
      uniform (entry_providers (provider_of h.domain_to_dns_provider) (elements target_ing.tls))
      ≡ true
  pub some_entry : elements target_ing.tls ≢ []

module _ (h : Handler) (t : IngressTemplate) (name : String) (target_ing : Ingress)
    (fits : IsManageable h target_ing) where
  -- The copy that is stored.
  abbrev pub copy : Ingress
  copy = (copied_ingress h t name target_ing (selected h target_ing)).1

  created-copy :
      (st : Store)
      → (created h t name target_ing (selected h target_ing) st).0
        ≡ put_control_ingress h.resource_namespace name (some copy) st
  created-copy st =
      let whole : (selected h target_ing).0 ≡ Slice.made (elements target_ing.tls) =
        selection-managed (provider_of h.domain_to_dns_provider) (elements target_ing.tls)
          fits.whole fits.one_provider fits.some_entry in
      elim (List-cases (elements target_ing.tls)) [
        | inl e ↦ absurd (fits.some_entry e)
        | inr (entry, rest, e) ↦ ground (arith, ap elements whole, e)
      ]

  copy-annotated : copy.annotations ≢ GoMap.nil
  unfolding create_control_ingress
  copy-annotated e = absurd (cc e)

  -- The description of a run that finds this copy.
  settled :
      (t' : IngressTemplate) (st : Store) → synced h t' name (some target_ing) (some copy) st ≡ st
  settled t' st =
      rw (copy_up_to_date h t name target_ing fits.whole fits.one_provider fits.some_entry) refl

module _ (api : Api) (lawful : IsLawful api) (fresh : IsFresh api lawful)
    (reliable : IsReliable api) (h : Handler)
    (fit : IsWellConfigured api h.domain_to_dns_provider) where
  open lawful use {view}

  -- The first run makes the copy.
  pub sync-copied :
      (key namespace name : String) (target_ing : Ingress) (s : Broker api.World)
      → api.split_meta_namespace_key key ≡ ok (namespace, name)
      → IsAnnotated api lawful fresh reliable h fit s
      → (view s.world).target_ingresses namespace name ≡ some target_ing
      → let cn = create_name_for_control_cluster namespace name in
        (view s.world).control_ingresses h.resource_namespace cn ≡ none
        → (fits : IsManageable h target_ing)
        → quiet (view (sync api h key s).1.world)
          ≡ put_control_ingress h.resource_namespace cn
              (some (copy h s.template cn target_ing fits))
              (quiet (view s.world))
  sync-copied key namespace name target_ing s split a found missing fits =
      let cn = create_name_for_control_cluster namespace name in
      let st = quiet (view s.world) in
      let v = (sync-total api lawful fresh reliable h fit key namespace name s split a).1 in
      v
      ∙ ap (λ o. synced h s.template cn o (st.control_ingresses h.resource_namespace cn) st) found
      ∙ ap (λ o. synced h s.template cn (some target_ing) o st) missing
      ∙ created-copy h s.template cn target_ing fits st

  -- If the conditions of sync-total hold, the key is that of an Ingress of the target cluster
  -- without a copy, every TLS entry of it has hosts, all managed by one provider, and there is an
  -- entry, then after one Sync of the key a second one returns without an error and changes
  -- nothing, events aside.
  pub sync-settled :
      (key namespace name : String) (target_ing : Ingress) (s : Broker api.World)
      → api.split_meta_namespace_key key ≡ ok (namespace, name)
      → IsAnnotated api lawful fresh reliable h fit s
      → (view s.world).target_ingresses namespace name ≡ some target_ing
      → (view s.world).control_ingresses h.resource_namespace
          (create_name_for_control_cluster namespace name)
        ≡ none
      → IsManageable h target_ing
      → let s' = (sync api h key s).1 in
        ((sync api h key s').0 ≡ returned none)
        × (quiet (view (sync api h key s').1.world) ≡ quiet (view s'.world))
  sync-settled key namespace name target_ing s split a found missing fits =
      let s' = (sync api h key s).1 in
      let cn = create_name_for_control_cluster namespace name in
      let st = quiet (view s.world) in
      let ing = copy h s.template cn target_ing fits in
      let first = sync-copied key namespace name target_ing s split a found missing fits in
      let a' : IsAnnotated api lawful fresh reliable h fit s' = λ n c e.
        annotated_place st.control_ingresses h.resource_namespace cn ing
          (copy-annotated h s.template cn target_ing fits) a n c
          (ap (λ (x : Store). x.control_ingresses h.resource_namespace n) (sym first) ∙ e) in
      let (done, w) = sync-total api lawful fresh reliable h fit key namespace name s' split a' in
      let at : (quiet (view s'.world)).control_ingresses h.resource_namespace cn ≡ some ing =
        ap (λ (x : Store). x.control_ingresses h.resource_namespace cn) first
        ∙ place_self st.control_ingresses h.resource_namespace cn (some ing) in
      let still : (quiet (view s'.world)).target_ingresses namespace name ≡ some target_ing =
        ap (λ (x : Store). x.target_ingresses namespace name) first ∙ found in
      (
        done,
        w
            ∙ ap
                (λ o.
                  synced h s'.template cn o
                    ((quiet (view s'.world)).control_ingresses h.resource_namespace cn)
                    (quiet (view s'.world)))
                still
            ∙ ap (λ o. synced h s'.template cn (some target_ing) o (quiet (view s'.world))) at
            ∙ settled h s.template cn target_ing fits s'.template (quiet (view s'.world)),
      )
