-- ===== src/Events.antt =====
-- pkg/events: the controller that copies the events of Certificate resources to the Ingress that
-- owns the certificate. `Handlers` is eventhandler.go, `Sync` is sync.go.
pub mod Handlers
pub mod Sync
pub mod Laws
