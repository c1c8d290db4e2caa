-- ===== src/Tests/Logged.antt =====
-- Runs with calls that fail, on the resources of Tests/Data.antt.
use cert_broker.Base.{ℕ, String, Bool, Option, some, List, [], ◌∷◌, ◌≡◌, refl}
use cert_broker.Kube.Api.{Api}
use cert_broker.Kube.Logged.{logged, log, noted, reported}
use cert_broker.Kube.Updates.{Fault, bad_key}
use cert_broker.Queue.{Item, key, Worker}
use cert_broker.Controller.{process_next_work_item}
use cert_broker.Controller.Failures.{Logged, IsRetried}
use cert_broker.Cleaner.Worker.{process_next_work_item as recheck}
use cert_broker.Cleaner.Worker.Failures.{IsRechecked}
use cert_broker.Ingress.Sync.{sync as sync_ingress}
use cert_broker.Secret.Sync.{sync as sync_secret}
use cert_broker.Events.Sync.{sync as sync_event}
use cert_broker.Cleaner.Sync.{sync_handler}
use cert_broker.Turns.Logged.{log-reported, failures-IsRetried}
use cert_broker.Tests.Data.{world, start}
use cert_broker.Tests.Turns.{handlers}

-- A control cluster that takes no new Ingress.
abbrev refusing : Api
refusing = record world { create_ingress = λ ns i w. (some bad_key, w) }

abbrev log_start : Logged refusing
log_start = record { world = (start.world, []); template = start.template }

reported_run :
    let ingress = sync_ingress (logged refusing) handlers.ingress "shop/web" log_start in
    let secret = sync_secret (logged refusing) "shop/web" log_start in
    let event = sync_event (logged refusing) handlers.extensions_version "shop/web" log_start in
    let cleaner = sync_handler (logged refusing) handlers.cleaner "shop/web" log_start in
    (log ingress.1 ≡ noted (reported (λ (e : Option Fault). e) ingress.0) [])
    × (log secret.1 ≡ noted (reported (λ (e : Option Fault). e) secret.0) [])
    × (log event.1 ≡ noted (reported (λ (e : Option Fault). e) event.0) [])
    × (log cleaner.1 ≡ noted (reported (λ (r : Bool × Option Fault). r.1) cleaner.0) [])
reported_run = log-reported refusing handlers tt "shop/web" log_start refl

abbrev queue_start : {C : Type 0} → Worker (Logged refusing) C
queue_start = record { state = log_start; calls = [] }

abbrev one_second : {C : Type 0} → C → Item → ℕ
one_second c item = 1_000_000_000

failures-IsRetried_example :
    let item = some (key "shop/web") in
    let ingress =
      process_next_work_item (sync_ingress (logged refusing) handlers.ingress) item queue_start in
    let secret = process_next_work_item (sync_secret (logged refusing)) item queue_start in
    let event =
      process_next_work_item
        (sync_event (logged refusing) handlers.extensions_version)
        item
        queue_start in
    let cleaner =
      recheck (sync_handler (logged refusing) handlers.cleaner) one_second item queue_start in
    IsRetried refusing "shop/web" queue_start ingress
    × IsRetried refusing "shop/web" queue_start secret
    × IsRetried refusing "shop/web" queue_start event
    × IsRechecked refusing one_second "shop/web" queue_start cleaner
failures-IsRetried_example =
    failures-IsRetried refusing handlers tt one_second "shop/web" queue_start queue_start refl

-- The failure of the create is noted.
refused :
    log (sync_ingress (logged refusing) handlers.ingress "shop/web" log_start).1 ≡ bad_key ∷ []
unfolding sync_ingress cert_broker.Ingress.Sync.sync_names cert_broker.Ingress.Sync.sync_existing
    cert_broker.Ingress.Sync.create_ingress cert_broker.Ingress.CopyTls.copy_tls
    cert_broker.Ingress.CopyTls.copy_entries cert_broker.Ingress.CopyTls.copy_hosts
    cert_broker.Ingress.CopyTls.scan_domains cert_broker.Base.Text.has_suffix
    cert_broker.Ingress.Sync.fill_template
refused = refl
