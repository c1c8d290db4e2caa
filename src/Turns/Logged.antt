-- ===== src/Turns/Logged.antt =====
-- The failures of a turn.
use cert_broker.Base.{ℕ, some, String, List, Bool, Option, ◌≡◌, ok}
use cert_broker.Kube.Api.{Api}
use cert_broker.Kube.Logged.{logged, log, noted, reported}
use cert_broker.Broker.{Broker}
use cert_broker.Ingress.Sync.{sync as sync_ingress}
use cert_broker.Ingress.Sync.Logged.{Reports-sync as Reports-ingress}
use cert_broker.Secret.Sync.{managed_labels, sync as sync_secret}
use cert_broker.Secret.Sync.Logged.{Reports-sync as Reports-secret}
use cert_broker.Events.Sync.{sync as sync_event}
use cert_broker.Events.Sync.Logged.{Reports-sync as Reports-event}
use cert_broker.Cleaner.Sync.{sync_handler}
use cert_broker.Cleaner.Sync.Logged.{Reports-sync_handler}
use cert_broker.Turns.{Handlers}
use cert_broker.Queue.{Item, key, Worker}
use cert_broker.Controller.{QueueCall, process_next_work_item}
use cert_broker.Controller.Failures.{Logged, IsRetried, Reports-IsRetried}
use cert_broker.Cleaner.Worker.{QueueCall as Recheck, process_next_work_item as recheck}
use cert_broker.Cleaner.Worker.Failures.{IsRechecked, ReportsIn-IsRechecked}

-- Later.
pub log-reported :
    (api : Api) (h : Handlers) (selector : api.Selector) (k : String)
    (s : Broker (api.World × List api.Error))
    → api.label_selector managed_labels ≡ ok selector
    → let ingress = sync_ingress (logged api) h.ingress k s in
      let secret = sync_secret (logged api) k s in
      let event = sync_event (logged api) h.extensions_version k s in
      let cleaner = sync_handler (logged api) h.cleaner k s in
      (log ingress.1 ≡ noted (reported (λ (e : Option api.Error). e) ingress.0) (log s))
      × (log secret.1 ≡ noted (reported (λ (e : Option api.Error). e) secret.0) (log s))
      × (log event.1 ≡ noted (reported (λ (e : Option api.Error). e) event.0) (log s))
      × (log cleaner.1 ≡ noted (reported (λ (r : Bool × Option api.Error). r.1) cleaner.0) (log s))
log-reported api h selector k s selects = (
  Reports-ingress api h.ingress k s,
  Reports-secret api selector selects k s,
  Reports-event api h.extensions_version k s,
  Reports-sync_handler api h.cleaner k s,
)

-- If the selector of the label can be made, then for each of the four workers and any key: either
-- one call of Sync failed, other than by an answer that it expects, and the key is marked as done
-- and added again, with the delay of the rate limiter, or none failed, and the key is marked as
-- done and forgotten, the cleaner's key perhaps added again after an hour, or none failed and the
-- panic of Sync goes through after the key is marked as done.
pub failures-IsRetried :
    (api : Api) (h : Handlers) (selector : api.Selector) (backoff : List Recheck → Item → ℕ)
    (k : String) (w : Worker (Logged api) QueueCall) (v : Worker (Logged api) Recheck)
    → api.label_selector managed_labels ≡ ok selector
    → let item = some (key k) in
      let ingress = process_next_work_item (sync_ingress (logged api) h.ingress) item w in
      let secret = process_next_work_item (sync_secret (logged api)) item w in
      let event = process_next_work_item (sync_event (logged api) h.extensions_version) item w in
      let cleaner = recheck (sync_handler (logged api) h.cleaner) backoff item v in
      IsRetried api k w ingress
      × IsRetried api k w secret
      × IsRetried api k w event
      × IsRechecked api backoff k v cleaner
failures-IsRetried api h selector backoff k w v selects = (
  Reports-IsRetried api _ k w (Reports-ingress api h.ingress k),
  Reports-IsRetried api _ k w (Reports-secret api selector selects k),
  Reports-IsRetried api _ k w (Reports-event api h.extensions_version k),
  ReportsIn-IsRechecked api backoff _ k v (Reports-sync_handler api h.cleaner k),
)
