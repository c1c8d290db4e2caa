-- ===== src/Cleanup/Logged.antt =====
-- pkg/utils/controller-helper.go: the failures of a clean-up.
use cert_broker.Base.{String, refl, arith, List, [], ◌∷◌, inl, inr, Option-cases}
use cert_broker.Base.Slice.{elements}
use cert_broker.Kube.{Ingress, IngressTls}
use cert_broker.Kube.Api.{Api}
use cert_broker.Kube.Logged.{logged, Reports}
use cert_broker.Broker.{Broker}
use cert_broker.Cleanup.{blocking, delete_tls_secrets, clean_up_ingress_and_tls_secrets}

module _ (api : Api) where
  Reports-delete_tls_secrets :
      (namespace : String) (tls : List IngressTls)
      → Reports api (delete_tls_secrets (logged api) namespace tls)
  unfolding delete_tls_secrets
  Reports-delete_tls_secrets namespace [] s = refl
  Reports-delete_tls_secrets namespace (entry ∷ tls) s =
      let done = (logged api).delete_secret namespace entry.secret_name s.world in
      let s' : Broker (logged api).World = record s { world = done.1 } in
      elim (Option-cases (blocking api done.0)) [
        | inl e ↦ ground (arith, e, Reports-delete_tls_secrets namespace tls s')
        | inr (x, e) ↦ ground (arith, e)
      ]

  pub Reports-clean_up :
      (i : Ingress) → Reports api (clean_up_ingress_and_tls_secrets (logged api) i)
  unfolding clean_up_ingress_and_tls_secrets
  Reports-clean_up i s =
      let done = (logged api).delete_ingress i.namespace i.name s.world in
      let s' : Broker (logged api).World = record s { world = done.1 } in
      elim (Option-cases (blocking api done.0)) [
        | inl e ↦ ground (arith, e, Reports-delete_tls_secrets i.namespace (elements i.tls) s')
        | inr (x, e) ↦ ground (arith, e)
      ]
