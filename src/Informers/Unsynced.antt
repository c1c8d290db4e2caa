-- ===== src/Informers/Unsynced.antt =====
-- Sync of pkg/secret/sync.go before the Ingress cache of the target cluster has synced, for which Start
-- of the secret controller does not wait.
use cert_broker.Base.{String, Bool, false, none, ok, ◌≡◌, arith}
use cert_broker.Base.Exec.{returned}
use cert_broker.Kube.{Secret}
use cert_broker.Kube.Api.{Api}
use cert_broker.Kube.Laws.{IsLawful}
use cert_broker.Broker.{Broker}
use cert_broker.Secret.Sync.{managed_labels, sync}
use cert_broker.Informers.{Informer, target_ingresses, AllSynced, cached, secret_informer_syncs}

module _ (api : Api) (lawful : IsLawful api) (has_synced : Informer → Bool)
    (missing : api.Error) where
  open lawful use {view, view-control_secret}

  -- If the calls keep the laws, the caches have synced for which the secret controller waits, that
  -- of the Ingress resources of the target cluster has not and holds nothing yet, and Sync, of a
  -- key that splits into a namespace and a name, reads the secret and makes the selector, then Sync
  -- returns without an error and changes nothing, whichever Ingress resources the target cluster
  -- has.
  pub sync-unsynced :
      (key namespace name : String) (selector : api.Selector) (x : Secret) (s : Broker api.World)
      → AllSynced has_synced secret_informer_syncs
      → has_synced target_ingresses ≡ false
      → api.split_meta_namespace_key key ≡ ok (namespace, name)
      → (api.control_secret namespace name s.world).0 ≡ ok x
      → api.label_selector managed_labels ≡ ok selector
      → let run = sync (cached api has_synced missing) key s in
        (run.0 ≡ returned none) × (view run.1.world ≡ view s.world)
  unfolding sync cert_broker.Secret.Sync.sync_names cert_broker.Secret.Sync.sync_secret
      cert_broker.Secret.Sync.has_ingress_in_target_cluster
  sync-unsynced key namespace name selector x s (secrets, _) target k found l =
      let w = view-control_secret namespace name s.world in
      (
        ground (arith, k, secrets, found, l, target),
        ground (arith, k, secrets, found, l, target, w),
      )
