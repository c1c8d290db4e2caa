-- ===== src/Ingress.antt =====
-- pkg/ingress: the controller that replicates Ingress resources of the target cluster to the control
-- cluster. `Handlers` is eventhandler.go, `CopyTls` the selection of the managed hosts, `Prefix` the
-- comparison of TLS sections and `Sync` the handler of sync.go.
pub mod Handlers
pub mod CopyTls
pub mod Prefix
pub mod Sync
