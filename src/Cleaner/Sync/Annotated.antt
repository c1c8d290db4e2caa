-- ===== src/Cleaner/Sync/Annotated.antt =====
-- pkg/cleaner/controller.go: syncHandler in clusters that answer every call, for any key.
use cert_broker.Base.{String}
use cert_broker.Base.Exec.{IsSafe}
use cert_broker.Kube.Annotated.{AllAnnotated}
use cert_broker.Kube.Api.{Api}
use cert_broker.Kube.Guarded.{CopiesAnnotated, IsGuarded-CopiesAnnotated}
use cert_broker.Kube.Laws.{IsLawful, IsFresh}
use cert_broker.Kube.Reliable.{IsReliable}
use cert_broker.Cleaner.Sync.{Controller, sync_handler}
use cert_broker.Cleaner.Sync.Guarded.{Safe-sync_handler}

module _ (api : Api) (lawful : IsLawful api) (fresh : IsFresh api lawful)
    (reliable : IsReliable api) (c : Controller) where
  pub IsSafe-sync_handler : (key : String) → IsSafe (AllAnnotated lawful) (sync_handler api c key)
  IsSafe-sync_handler =
      Safe-sync_handler api (CopiesAnnotated api lawful)
        (IsGuarded-CopiesAnnotated api lawful fresh reliable) c
