-- ===== src/Overlap/Safety.antt =====
-- Turns of the four handlers in which each run overlaps with others.
use cert_broker.Base.{String}
use cert_broker.Kube.Api.{Api}
use cert_broker.Kube.Guarded.{IsGuarded}
use cert_broker.Broker.{Broker}
use cert_broker.Ingress.Sync.{sync as sync_ingress}
use cert_broker.Secret.Sync.{sync as sync_secret}
use cert_broker.Events.Sync.{sync as sync_event}
use cert_broker.Cleaner.Sync.{sync_handler}
use cert_broker.Turns.{Handlers, Turns}
use cert_broker.Base.Exec.{Returns}
use cert_broker.Turns.Guarded.{Turns-guarded, Turns-guarded-returned}
use cert_broker.Overlap.Busy.{Busy, overlapped, IsCalm, IsGuarded-overlapped}

-- If the calls keep an invariant of the world as long as no Ingress with nil annotations is written
-- to the control cluster, and hand out no such Ingress of it, whether they succeed or fail, then
-- after any turns of the four controllers, before each call of which the world may change in any
-- way that keeps the invariant, the invariant holds, and the Sync of none of the controllers
-- panics, for any key and with any such changes before its calls.
pub Turns-overlapped-returned :
    (api : Api) (Inv : api.World → Type 0) (h : Handlers)
    (Changes : Busy api.World → Busy api.World → Type 0) (s s' : Broker (Busy api.World))
    (key : String)
    → IsGuarded api Inv
    → ((b b' : Busy api.World) → Changes b b' → IsCalm Inv b → IsCalm Inv b')
    → IsCalm Inv s.world
    → Turns (overlapped api) Changes h s s'
    → IsCalm Inv s'.world
      × Returns (sync_ingress (overlapped api) h.ingress key) s'
      × Returns (sync_secret (overlapped api) key) s'
      × Returns (sync_event (overlapped api) h.extensions_version key) s'
      × Returns (sync_handler (overlapped api) h.cleaner key) s'
Turns-overlapped-returned api Inv h Changes s s' key g spared calm run =
    let guarded = IsGuarded-overlapped api Inv g in
    let calm' = Turns-guarded (overlapped api) (IsCalm Inv) guarded h Changes spared run calm in
    let (a, b, c, d) =
      Turns-guarded-returned (overlapped api) (IsCalm Inv) guarded h Changes spared key run calm in
    (calm', a, b, c, d)
