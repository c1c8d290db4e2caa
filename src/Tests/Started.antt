-- ===== src/Tests/Started.antt =====
-- The controllers of a start on concrete options.
use cert_broker.Base.{none, String, List, ◌≡◌, refl, All}
use cert_broker.Base.Exec.{returned}
use cert_broker.Kube.{Object, tombstone}
use cert_broker.Kube.Memory.{memory-IsLawful}
use cert_broker.Kube.Updates.{Fault}
use cert_broker.Ingress.Sync.{sync as sync_ingress}
use cert_broker.Events.Sync.{sync as sync_event}
use cert_broker.Secret.Sync.{sync as sync_secret}
use cert_broker.Cleaner.Sync.{sync_handler}
use cert_broker.Informers.{Informer, cached}
use cert_broker.Informers.Registration.{Registration, updated}
use cert_broker.Program.Cached.{run_e-cached, run_e-returned, run_e-unsynced}
use cert_broker.Tests.Data.{world, shop, before, setting, tls_secret}
use cert_broker.Tests.Informers.{filtering, filtering-IsFiltering, everything, others}
use cert_broker.Tests.Program.{
  files, options, all_exist, never_equal, wiring, started, at_start, secret_waits,
}

run_e-cached_example :
    (sync_ingress
        (cached world everything Fault.missing)
        wiring.handlers.ingress
        "shop/web"
        at_start
      ≡ sync_ingress world wiring.handlers.ingress "shop/web" at_start)
    × (sync_event
          (cached world everything Fault.missing)
          wiring.handlers.extensions_version
          "shop/web"
          at_start
        ≡ sync_event world wiring.handlers.extensions_version "shop/web" at_start)
    × (sync_handler
          (cached world everything Fault.missing)
          wiring.handlers.cleaner
          "shop/web"
          at_start
        ≡ sync_handler world wiring.handlers.cleaner "shop/web" at_start)
unfolding cert_broker.Controllers.Ingress.get_informer_syncs
    cert_broker.Controllers.Events.get_informer_syncs cert_broker.Controllers.Cleaner.awaited_syncs
run_e-cached_example =
    run_e-cached files world never_equal "class" "extensions/v1beta1" all_exist options wiring
      started Fault.missing everything everything everything "shop/web" at_start
      (refl, (refl, (refl, tt))) (refl, (refl, (refl, tt))) (refl, (refl, tt))

run_e-returned_example :
    All
      (λ (p : Informer × Registration).
        (keys : List String) × (filtering p.1 (updated (Object.ingress shop) (tombstone "shop/web"))
          ≡ returned keys))
      wiring.registrations
run_e-returned_example =
    run_e-returned files world never_equal "class" "extensions/v1beta1" all_exist options wiring
      started filtering (updated (Object.ingress shop) (tombstone "shop/web")) filtering-IsFiltering

run_e-unsynced_example :
    ((sync_secret (cached world others Fault.missing) "control/managed-cert.shop.tls" at_start).0
      ≡ returned none)
    × ((sync_secret
          (cached world others Fault.missing)
          "control/managed-cert.shop.tls"
          at_start).1.world
        ≡ before)
run_e-unsynced_example =
    run_e-unsynced files world never_equal "class" "extensions/v1beta1" all_exist options wiring
      started (memory-IsLawful setting) others Fault.missing "control/managed-cert.shop.tls"
      "control" "managed-cert.shop.tls" tt tls_secret at_start (rw secret_waits (refl, tt)) refl
      refl refl refl
