-- ===== src/Tests/Overlap.antt =====
-- Runs that overlap, on the resources of Tests/Data.antt.
use cert_broker.Base.{none, [], ◌∷◌}
use cert_broker.Kube.Annotated.{Annotated, Annotated-remove}
use cert_broker.Kube.Guarded.{IsGuarded-CopiesAnnotated}
use cert_broker.Kube.Memory.{memory-IsLawful, memory-IsFresh}
use cert_broker.Kube.Store.{Store, put_control_ingress}
use cert_broker.Broker.{Broker}
use cert_broker.Ingress.Sync.{sync as sync_ingress}
use cert_broker.Secret.Sync.{sync as sync_secret}
use cert_broker.Events.Sync.{sync as sync_event}
use cert_broker.Cleaner.Sync.{sync_handler}
use cert_broker.Turns.{Turns, ingress_turn, cleaner_turn, none_yet, and_then}
use cert_broker.Base.Exec.{Returns}
use cert_broker.Overlap.Busy.{Busy, overlapped, IsCalm}
use cert_broker.Overlap.Safety.{Turns-overlapped-returned}
use cert_broker.Tests.Data.{world, world-IsReliable, setting, start}
use cert_broker.Tests.Turns.{handlers}

-- Another client removes the copy.
abbrev removal : Store → Store
removal = put_control_ingress "control" "managed-cert.shop.web" none

abbrev idle : Store → Store
idle w = w

-- During the first turn nothing happens for seven calls, and then the copy is removed twice.
abbrev busy_start : Broker (Busy Store)
busy_start = record {
  world = (start.world, idle ∷ idle ∷ idle ∷ idle ∷ idle ∷ removal ∷ removal ∷ []);
  template = start.template;
}

abbrev Annotations : Store → Type 0
Annotations w = Annotated w.control_ingresses

abbrev Nothing : Busy Store → Busy Store → Type 0
Nothing b b' = ⊥

abbrev busy_after : Broker (Busy Store)
busy_after =
    (sync_handler (overlapped world) handlers.cleaner "control/managed-cert.shop.web"
      (sync_ingress (overlapped world) handlers.ingress "shop/web" busy_start).1).1

busy_run : Turns (overlapped world) Nothing handlers busy_start busy_after
busy_run = and_then (and_then none_yet (ingress_turn "shop/web" busy_start)) (cleaner_turn _ _)

busy_start-IsCalm : IsCalm Annotations busy_start.world
busy_start-IsCalm =
    let keep = λ (w : Store) (all : Annotations w). all in
    let drop =
      λ (w : Store). Annotated-remove w.control_ingresses "control" "managed-cert.shop.web" in
    ((λ ns n i e. absurd (cc e)), (keep, (keep, (keep, (keep, (keep, (drop, (drop, tt))))))))

Turns-overlapped-returned_example :
    IsCalm Annotations busy_after.world
    × Returns (sync_ingress (overlapped world) handlers.ingress "shop/web") busy_after
    × Returns (sync_secret (overlapped world) "shop/web") busy_after
    × Returns (sync_event (overlapped world) handlers.extensions_version "shop/web") busy_after
    × Returns (sync_handler (overlapped world) handlers.cleaner "shop/web") busy_after
Turns-overlapped-returned_example =
    Turns-overlapped-returned world Annotations handlers Nothing busy_start busy_after "shop/web"
      (IsGuarded-CopiesAnnotated world (memory-IsLawful setting) (memory-IsFresh setting)
        world-IsReliable)
      (λ b b' none. absurd none) busy_start-IsCalm busy_run
