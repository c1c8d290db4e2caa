-- ===== src/Broker.antt =====
-- The state that the handlers of all four controllers share: the world outside the program, and the
-- one IngressTemplate of cmd/controller-manager.go, which the Ingress controller writes and the
-- cleaner reads.
use cert_broker.Base.Exec.{Exec, call}
use cert_broker.Template.{IngressTemplate}

pub record Broker (World : Type 0) : Type 0 where
  pub world : World
  pub template : IngressTemplate

-- A call that changes the world alone.
abbrev pub outside : {W A : Type 0} → (W → A × W) → Exec (Broker W) A
outside f = call (λ s. let (a, w) = f s.world in (a, record s { world = w }))
