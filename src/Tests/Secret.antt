-- ===== src/Tests/Secret.antt =====
-- The secret controller on the resources of Tests/Data.antt.
use cert_broker.Base.{◌≡◌, ◌↔◌, refl, some, true, [], ◌∷◌, Any, if◌then◌else◌}
use cert_broker.Kube.Store.{put_target_secret}
use cert_broker.Kube.Memory.{memory-IsLawful}
use cert_broker.Secret.Sync.{has_ingress_in_target_cluster, copy_of}
use cert_broker.Base.{none}
use cert_broker.Base.Exec.{returned}
use cert_broker.Secret.Sync.{sync}
use cert_broker.Secret.Sync.Totality.{sync-replicates}
use cert_broker.Tests.Data.{world-IsReliable, setting, world, start, shop, tls_secret, before}

sync-replicates_example :
    ((sync world "control/managed-cert.shop.tls" start).0 ≡ returned none)
    × ((sync world "control/managed-cert.shop.tls" start).1.world ≡ (
        if has_ingress_in_target_cluster (shop ∷ []) "tls"
        then put_target_secret "shop" "tls" (some (copy_of tls_secret)) before
        else before))
unfolding cert_broker.Naming.split_namespace cert_broker.Base.Text.cut
sync-replicates_example =
    sync-replicates world world-IsReliable (memory-IsLawful setting) "control/managed-cert.shop.tls"
      "control" "managed-cert.shop.tls" start tls_secret tt (shop ∷ []) refl refl refl refl
