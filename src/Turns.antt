-- ===== src/Turns.antt =====
-- The four controllers on one state: a worker of any of them takes a key of its queue and runs the
-- handler of pkg/ingress/sync.go, pkg/secret/sync.go, pkg/events/sync.go or pkg/cleaner/controller.go,
-- in any order and for any key, and between two runs the world may change. A run is one turn; what
-- other workers do during a run is in Overlap.antt.
pub mod Template
pub mod Annotated
pub mod Guarded
pub mod Logged
pub mod Certificate
pub mod Settled
pub mod Order
pub mod Mirror
use cert_broker.Base.{String}
use cert_broker.Kube.Api.{Api}
use cert_broker.Broker.{Broker}
use cert_broker.Ingress.Sync.{Handler, sync as sync_ingress}
use cert_broker.Secret.Sync.{sync as sync_secret}
use cert_broker.Events.Sync.{sync as sync_event}
use cert_broker.Cleaner.Sync.{Controller, sync_handler}

-- The handlers' fields that are values.
pub record Handlers : Type 0 where
  pub ingress : Handler
  pub cleaner : Controller
  pub extensions_version : String

-- `Changes` is what the world may do between two runs.
pub data Turn (api : Api) (Changes : api.World → api.World → Type 0) (h : Handlers)
    : Broker api.World → Broker api.World → Type 0 where
  ingress_turn :
      (key : String) (s : Broker api.World)
      → Turn api Changes h s (sync_ingress api h.ingress key s).1
  secret_turn :
      (key : String) (s : Broker api.World) → Turn api Changes h s (sync_secret api key s).1
  event_turn :
      (key : String) (s : Broker api.World)
      → Turn api Changes h s (sync_event api h.extensions_version key s).1
  cleaner_turn :
      (key : String) (s : Broker api.World)
      → Turn api Changes h s (sync_handler api h.cleaner key s).1
  world_turn :
      (w : api.World) (s : Broker api.World)
      → Changes s.world w
      → Turn api Changes h s (record s { world = w })

pub data Turns (api : Api) (Changes : api.World → api.World → Type 0) (h : Handlers)
    (s : Broker api.World) : Broker api.World → Type 0 where
  none_yet : Turns api Changes h s s
  and_then :
      {t u : Broker api.World}
      → Turns api Changes h s t
      → Turn api Changes h t u
      → Turns api Changes h s u
