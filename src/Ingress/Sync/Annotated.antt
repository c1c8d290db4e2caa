-- ===== src/Ingress/Sync/Annotated.antt =====
-- pkg/ingress/sync.go: Sync in clusters that answer every call, for any key.
use cert_broker.Base.{String}
use cert_broker.Base.Exec.{IsSafe}
use cert_broker.Kube.Annotated.{AllAnnotated}
use cert_broker.Kube.Api.{Api}
use cert_broker.Kube.Guarded.{CopiesAnnotated, IsGuarded-CopiesAnnotated}
use cert_broker.Kube.Laws.{IsLawful, IsFresh}
use cert_broker.Kube.Reliable.{IsReliable}
use cert_broker.Ingress.Sync.{Handler, sync}
use cert_broker.Ingress.Sync.Guarded.{Safe-sync}

module _ (api : Api) (lawful : IsLawful api) (fresh : IsFresh api lawful)
    (reliable : IsReliable api) (h : Handler) where
  pub IsSafe-sync : (key : String) → IsSafe (AllAnnotated lawful) (sync api h key)
  IsSafe-sync =
      Safe-sync api (CopiesAnnotated api lawful)
        (IsGuarded-CopiesAnnotated api lawful fresh reliable) h
