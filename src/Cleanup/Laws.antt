-- ===== src/Cleanup/Laws.antt =====
-- pkg/utils/controller-helper.go: what CleanUpIngressAndTLSSecrets leaves.
use cert_broker.Base.{
  String, ◌≡◌, refl, ◌∙◌, ap, arith, none, List, [], ◌∷◌, All, Option-cases, inl, inr,
}
use cert_broker.Base.Exec.{returned}
use cert_broker.Base.Slice.{elements}
use cert_broker.Kube.{Ingress, IngressTls}
use cert_broker.Kube.Api.{Api}
use cert_broker.Kube.Store.{
  Store, Table, place_self, place_absent, put_control_ingress, put_control_secret,
}
use cert_broker.Kube.Laws.{IsLawful}
use cert_broker.Broker.{Broker}
use cert_broker.Cleanup.{blocking, delete_tls_secrets, clean_up_ingress_and_tls_secrets}

-- The tables without the secrets of these entries.
abbrev pub remove_secrets : String → List IngressTls → Store → Store
remove_secrets namespace [] s = s
remove_secrets namespace (entry ∷ tls) s =
    remove_secrets namespace tls (put_control_secret namespace entry.secret_name none s)

-- What is absent stays absent.
remove_secrets_absent :
    (namespace n : String) (tls : List IngressTls) (s : Store)
    → s.control_secrets namespace n ≡ none
    → (remove_secrets namespace tls s).control_secrets namespace n ≡ none
remove_secrets_absent namespace n [] s h = h
remove_secrets_absent namespace n (entry ∷ tls) s h =
    remove_secrets_absent namespace n tls _
      (place_absent s.control_secrets namespace entry.secret_name namespace n h)

pub remove_secrets-All :
    (namespace : String) (tls : List IngressTls) (s : Store)
    → All
        (λ entry.
          (remove_secrets namespace tls s).control_secrets namespace entry.secret_name ≡ none)
        tls
remove_secrets-All namespace [] s = tt
remove_secrets-All namespace (entry ∷ tls) s = (
  remove_secrets_absent namespace entry.secret_name tls _
      (place_self s.control_secrets namespace entry.secret_name none),
  remove_secrets-All namespace tls _,
)

pub remove_secrets-ingresses :
    (namespace : String) (tls : List IngressTls) (s : Store)
    → (remove_secrets namespace tls s).control_ingresses ≡ s.control_ingresses
remove_secrets-ingresses namespace [] s = refl
remove_secrets-ingresses namespace (entry ∷ tls) s = remove_secrets-ingresses namespace tls _

module _ (api : Api) (lawful : IsLawful api) where
  open lawful use {view, view-delete_secret, view-delete_ingress}

  delete_tls_secrets_view :
      (namespace : String) (tls : List IngressTls) (s : Broker api.World)
      → (delete_tls_secrets api namespace tls s).0 ≡ returned none
      → view (delete_tls_secrets api namespace tls s).1.world
        ≡ remove_secrets namespace tls (view s.world)
  unfolding delete_tls_secrets
  delete_tls_secrets_view namespace [] s h = refl
  delete_tls_secrets_view namespace (entry ∷ tls) s h =
      let n = entry.secret_name in
      elim (Option-cases (blocking api (api.delete_secret namespace n s.world).0)) [
        | inl e ↦ rw e (
            delete_tls_secrets_view namespace tls _ (rw e at h)
            ∙ ap (remove_secrets namespace tls) (view-delete_secret namespace n s.world e))
        | inr (x, e) ↦ absurd (ground (arith, e))
      ]

  -- If the clean-up reports no error, then the tables are those before, without the Ingress and
  -- without the secrets of its TLS entries.
  pub view-clean_up_ingress_and_tls_secrets :
      (ing : Ingress) (s : Broker api.World)
      → (clean_up_ingress_and_tls_secrets api ing s).0 ≡ returned none
      → view (clean_up_ingress_and_tls_secrets api ing s).1.world
        ≡ remove_secrets ing.namespace
            (elements ing.tls)
            (put_control_ingress ing.namespace ing.name none (view s.world))
  unfolding clean_up_ingress_and_tls_secrets
  view-clean_up_ingress_and_tls_secrets ing s h =
      elim (Option-cases (blocking api (api.delete_ingress ing.namespace ing.name s.world).0)) [
        | inl e ↦ rw e (
            delete_tls_secrets_view ing.namespace (elements ing.tls) _ (rw e at h)
            ∙ ap (remove_secrets ing.namespace (elements ing.tls))
                (view-delete_ingress ing.namespace ing.name s.world e))
        | inr (x, e) ↦ absurd (ground (arith, e))
      ]

  -- If the calls keep the laws and the clean-up reports no error, then neither the Ingress nor a
  -- secret that one of its TLS entries names is in the control cluster.
  pub clean_up_ingress_and_tls_secrets-absent :
      (ing : Ingress) (s : Broker api.World)
      → (clean_up_ingress_and_tls_secrets api ing s).0 ≡ returned none
      → let t = view (clean_up_ingress_and_tls_secrets api ing s).1.world in
        (t.control_ingresses ing.namespace ing.name ≡ none)
        × All (λ entry. t.control_secrets ing.namespace entry.secret_name ≡ none) (elements ing.tls)
  clean_up_ingress_and_tls_secrets-absent ing s h =
      rw (view-clean_up_ingress_and_tls_secrets ing s h) (
        ap (λ (t : Table Ingress). t ing.namespace ing.name)
              (remove_secrets-ingresses ing.namespace (elements ing.tls) _)
            ∙ place_self (view s.world).control_ingresses ing.namespace ing.name none,
        remove_secrets-All ing.namespace (elements ing.tls) _,
      )

module _ (api : Api) where
  delete_tls_secrets-total :
      ((ns n : String) (w : api.World) → blocking api (api.delete_secret ns n w).0 ≡ none)
      → (namespace : String) (tls : List IngressTls) (s : Broker api.World)
      → (delete_tls_secrets api namespace tls s).0 ≡ returned none
  unfolding delete_tls_secrets
  delete_tls_secrets-total ds namespace [] s = refl
  delete_tls_secrets-total ds namespace (entry ∷ tls) s =
      rw (ds namespace entry.secret_name s.world) (delete_tls_secrets-total ds namespace tls _)

  -- If no delete reports another error than that of a missing object, then the clean-up reports
  -- none.
  pub clean_up_ingress_and_tls_secrets-total :
      ((ns n : String) (w : api.World) → blocking api (api.delete_ingress ns n w).0 ≡ none)
      → ((ns n : String) (w : api.World) → blocking api (api.delete_secret ns n w).0 ≡ none)
      → (ing : Ingress) (s : Broker api.World)
      → (clean_up_ingress_and_tls_secrets api ing s).0 ≡ returned none
  unfolding clean_up_ingress_and_tls_secrets
  clean_up_ingress_and_tls_secrets-total di ds ing s =
      rw (di ing.namespace ing.name s.world)
        (delete_tls_secrets-total ds ing.namespace (elements ing.tls) _)
