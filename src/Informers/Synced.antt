-- ===== src/Informers/Synced.antt =====
-- The handlers after WaitForCacheSync: what they read comes from caches that have synced.
mod Cleanup
mod Ingress
mod Events
mod Cleaner
use cert_broker.Base.{String, Bool, ◌≡◌}
use cert_broker.Kube.Api.{Api}
use cert_broker.Broker.{Broker}
use cert_broker.Ingress.Sync.{Handler, sync as sync_ingress}
use cert_broker.Events.Sync.{sync as sync_event}
use cert_broker.Cleaner.Sync.{Controller, sync_handler}
use cert_broker.Informers.{
  Informer, AllSynced, cached, ingress_informer_syncs, event_informer_syncs, cleaner_informer_syncs,
}
use cert_broker.Informers.Synced.Ingress.{sync_ingress-cached}
use cert_broker.Informers.Synced.Events.{sync-cached}
use cert_broker.Informers.Synced.Cleaner.{sync_handler-cached}

-- If the caches have synced for which a controller waits before it starts its workers, then Sync of
-- the Ingress controller, Sync of the event controller and syncHandler of the cleaner do, for any
-- key and from any state, what they do with all caches synced, even if the other caches hold
-- nothing yet.
pub syncs-cached :
    (api : Api) (missing : api.Error) (at_ingress at_events at_cleaner : Informer → Bool)
    (h : Handler) (extensions_version : String) (c : Controller) (key : String)
    (s : Broker api.World)
    → AllSynced at_ingress ingress_informer_syncs
    → AllSynced at_events event_informer_syncs
    → AllSynced at_cleaner cleaner_informer_syncs
    → (sync_ingress (cached api at_ingress missing) h key s ≡ sync_ingress api h key s)
      × (sync_event (cached api at_events missing) extensions_version key s
          ≡ sync_event api extensions_version key s)
      × (sync_handler (cached api at_cleaner missing) c key s ≡ sync_handler api c key s)
syncs-cached api missing at_ingress at_events at_cleaner h extensions_version c key s
      (i0, (_, (i2, _))) (e0, (e1, (e2, _))) (c0, (c1, _)) =
    (
      sync_ingress-cached api at_ingress missing h i0 i2 key s,
      sync-cached api at_events missing extensions_version e2 e0 e1 key s,
      sync_handler-cached api at_cleaner missing c c0 c1 key s,
    )
