-- ===== src/Informers/Synced/Cleanup.antt =====
-- CleanUpIngressAndTLSSecrets of pkg/utils/controller-helper.go, which reads no cache.
use cert_broker.Base.{String, Bool, List, [], ◌∷◌, ◌≡◌, refl, arith, inl, inr}
use cert_broker.Base.{Bool-cases, Option-cases}
use cert_broker.Base.Slice.{elements}
use cert_broker.Kube.{Ingress, IngressTls}
use cert_broker.Kube.Api.{Api}
use cert_broker.Broker.{Broker}
use cert_broker.Cleanup.{delete_tls_secrets, clean_up_ingress_and_tls_secrets}
use cert_broker.Informers.{Informer, cached}

module _ (api : Api) (has_synced : Informer → Bool) (missing : api.Error) where
  abbrev through : Api
  through = cached api has_synced missing

  delete_tls_secrets-cached :
      (namespace : String) (tls : List IngressTls) (s : Broker api.World)
      → delete_tls_secrets through namespace tls s ≡ delete_tls_secrets api namespace tls s
  unfolding delete_tls_secrets
  delete_tls_secrets-cached namespace [] s = refl
  delete_tls_secrets-cached namespace (entry ∷ tls) s =
      let ih = delete_tls_secrets-cached namespace tls in
      elim (Option-cases (api.delete_secret namespace entry.secret_name s.world).0) [
        | inl e ↦ ground (arith, e, ih)
        | inr (f, e) ↦ elim (Bool-cases (api.is_not_found f)) [
          | inl b ↦ ground (arith, e, b, ih)
          | inr b ↦ ground (arith, e, b)
        ]
      ]

  pub clean_up-cached :
      (ing : Ingress) (s : Broker api.World)
      → clean_up_ingress_and_tls_secrets through ing s ≡ clean_up_ingress_and_tls_secrets api ing s
  unfolding clean_up_ingress_and_tls_secrets
  clean_up-cached ing s =
      let del = api.delete_ingress ing.namespace ing.name s.world in
      let d =
        delete_tls_secrets-cached ing.namespace (elements ing.tls) (record s { world = del.1 }) in
      elim (Option-cases del.0) [
        | inl e ↦ ground (arith, e, d)
        | inr (f, e) ↦ elim (Bool-cases (api.is_not_found f)) [
          | inl b ↦ ground (arith, e, b, d)
          | inr b ↦ ground (arith, e, b)
        ]
      ]
