-- ===== src/Cleaner.antt =====
-- pkg/cleaner: the controller that deletes Ingress resources of the control cluster without a
-- counterpart in the target cluster. `Handlers` is eventhandler.go, `Sync` is syncHandler and
-- `Worker` the worker of controller.go.
pub mod Handlers
pub mod Sync
pub mod Worker
