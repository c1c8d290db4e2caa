-- ===== src/Turns/Guarded.antt =====
-- Turns with calls that keep an invariant, whatever they answer.
use cert_broker.Base.{String}
use cert_broker.Kube.Api.{Api}
use cert_broker.Kube.Guarded.{IsGuarded}
use cert_broker.Broker.{Broker}
use cert_broker.Ingress.Sync.{sync as sync_ingress}
use cert_broker.Ingress.Sync.Guarded.{Safe-sync as Safe-ingress}
use cert_broker.Secret.Sync.{sync as sync_secret}
use cert_broker.Secret.Sync.Guarded.{Safe-sync as Safe-secret}
use cert_broker.Events.Sync.{sync as sync_event}
use cert_broker.Events.Sync.Guarded.{Safe-sync as Safe-event}
use cert_broker.Cleaner.Sync.{sync_handler}
use cert_broker.Cleaner.Sync.Guarded.{Safe-sync_handler}
use cert_broker.Turns.{
  Handlers, Turn, ingress_turn, secret_turn, event_turn, cleaner_turn, world_turn, Turns, none_yet,
  and_then,
}
use cert_broker.Base.Exec.{Returns}

module _ (api : Api) (Inv : api.World → Type 0) (g : IsGuarded api Inv) (h : Handlers)
    (Changes : api.World → api.World → Type 0)
    (spared : (w w' : api.World) → Changes w w' → Inv w → Inv w') where
  Turn-guarded : {s s' : Broker api.World} → Turn api Changes h s s' → Inv s.world → Inv s'.world
  Turn-guarded (ingress_turn key s) inv = (Safe-ingress api Inv g h.ingress key s inv).2
  Turn-guarded (secret_turn key s) inv = (Safe-secret api Inv g key s inv).2
  Turn-guarded (event_turn key s) inv = (Safe-event api Inv g h.extensions_version key s inv).2
  Turn-guarded (cleaner_turn key s) inv = (Safe-sync_handler api Inv g h.cleaner key s inv).2
  Turn-guarded (world_turn w s c) inv = spared s.world w c inv

  pub Turns-guarded :
      {s s' : Broker api.World} → Turns api Changes h s s' → Inv s.world → Inv s'.world
  Turns-guarded none_yet inv = inv
  Turns-guarded (and_then run turn) inv = Turn-guarded turn (Turns-guarded run inv)

  -- After any turns the Sync of each controller returns.
  pub Turns-guarded-returned :
      {s s' : Broker api.World} (key : String)
      → Turns api Changes h s s'
      → Inv s.world
      → Returns (sync_ingress api h.ingress key) s'
        × Returns (sync_secret api key) s'
        × Returns (sync_event api h.extensions_version key) s'
        × Returns (sync_handler api h.cleaner key) s'
  Turns-guarded-returned {s' = s'} key run inv =
      let inv' = Turns-guarded run inv in
      let (a, p, _) = Safe-ingress api Inv g h.ingress key s' inv' in
      let (b, q, _) = Safe-secret api Inv g key s' inv' in
      let (c, r, _) = Safe-event api Inv g h.extensions_version key s' inv' in
      let (d, t, _) = Safe-sync_handler api Inv g h.cleaner key s' inv' in
      ((a, p), (b, q), (c, r), (d, t))
