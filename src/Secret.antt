-- ===== src/Secret.antt =====
-- pkg/secret: the controller that replicates the secrets of the control cluster, with the
-- certificates, to the target cluster. `Handlers` is eventhandler.go, `Sync` is sync.go.
pub mod Handlers
pub mod Sync
