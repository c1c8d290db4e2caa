-- ===== src/Turns/Annotated.antt =====
-- Turns in clusters that answer every call.
use cert_broker.Base.{String}
use cert_broker.Base.Exec.{Returns}
use cert_broker.Kube.Annotated.{Annotated, AllAnnotated}
use cert_broker.Kube.Api.{Api}
use cert_broker.Kube.Guarded.{CopiesAnnotated, IsGuarded-CopiesAnnotated}
use cert_broker.Kube.Laws.{IsLawful, IsFresh}
use cert_broker.Kube.Reliable.{IsReliable}
use cert_broker.Broker.{Broker}
use cert_broker.Ingress.Sync.{sync as sync_ingress}
use cert_broker.Secret.Sync.{sync as sync_secret}
use cert_broker.Events.Sync.{sync as sync_event}
use cert_broker.Cleaner.Sync.{sync_handler}
use cert_broker.Turns.{Handlers, Turns}
use cert_broker.Turns.Guarded.{Turns-guarded-returned}

-- If the calls keep the laws, the caches are fresh, the clusters fail for what is missing or there
-- already alone and no change from outside takes the annotations of a copy away, then after any
-- turns of the four controllers, in any order and for any keys, from a state in which no copy has
-- nil annotations, the Sync of none of them panics, for any key.
pub Turns-returned :
    (api : Api) (lawful : IsLawful api) (h : Handlers) (Changes : api.World → api.World → Type 0)
    (s s' : Broker api.World) (key : String)
    → IsFresh api lawful
    → IsReliable api
    → ((w w' : api.World)
        → Changes w w'
        → Annotated (lawful.view w).control_ingresses
        → Annotated (lawful.view w').control_ingresses)
    → AllAnnotated lawful s
    → Turns api Changes h s s'
    → Returns (sync_ingress api h.ingress key) s'
      × Returns (sync_secret api key) s'
      × Returns (sync_event api h.extensions_version key) s'
      × Returns (sync_handler api h.cleaner key) s'
Turns-returned api lawful h Changes s s' key fresh reliable spared all run =
    Turns-guarded-returned api (CopiesAnnotated api lawful)
      (IsGuarded-CopiesAnnotated api lawful fresh reliable) h Changes spared key run all
