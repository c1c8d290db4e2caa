-- ===== src/Cleanup.antt =====
-- pkg/utils/controller-helper.go: CleanUpIngressAndTLSSecrets.
pub mod Laws
pub mod Logged
use cert_broker.Base.{String, Bool, Option, none, some, List, [], ◌∷◌, if◌then◌else◌}
use cert_broker.Base.Exec.{Exec, pure, ◌>>=◌}
use cert_broker.Base.Slice.{elements}
use cert_broker.Kube.{Ingress, IngressTls}
use cert_broker.Kube.Api.{Api}
use cert_broker.Broker.{Broker, outside}

module _ (api : Api) where
  open api use {World, Error, is_not_found, delete_ingress, delete_secret}

  -- err != nil && !errors.IsNotFound(err)
  abbrev pub blocking : Option Error → Option Error
  blocking none = none
  blocking (some e) = if is_not_found e then none else some e

  abbrev continue_unless :
      Option Error → Exec (Broker World) (Option Error) → Exec (Broker World) (Option Error)
  continue_unless none rest = rest
  continue_unless (some e) rest = pure (some e)

  -- The loop over the TLS entries.
  unfoldable pub delete_tls_secrets : String → List IngressTls → Exec (Broker World) (Option Error)
  delete_tls_secrets namespace [] = pure none
  delete_tls_secrets namespace (entry ∷ tls) = do
    e ← outside (delete_secret namespace entry.secret_name)
    continue_unless (blocking e) (delete_tls_secrets namespace tls)

  unfoldable pub clean_up_ingress_and_tls_secrets : Ingress → Exec (Broker World) (Option Error)
  clean_up_ingress_and_tls_secrets ingress = do
    e ← outside (delete_ingress ingress.namespace ingress.name)
    continue_unless (blocking e) (delete_tls_secrets ingress.namespace (elements ingress.tls))
