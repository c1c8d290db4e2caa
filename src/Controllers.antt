-- ===== src/Controllers.antt =====
-- NewController of the four packages: the handlers with the contexts that cmd/controller-manager.go
-- hands to them. A lister, a HasSynced function and an informer of client-go are named by the cache that
-- they belong to, a work queue by its name.
pub mod Ingress
pub mod Secret
pub mod Events
pub mod Cleaner
use cert_broker.Base.{String}

-- CreateRecorder of pkg/utils/controller-helper.go: a recorder that sends events through a client, and
-- the component that they name.
pub record Recorder (Client : Type 0) : Type 0 where
  pub client : Client
  pub component : String

abbrev pub create_recorder : {Client : Type 0} → Client → String → Recorder Client
create_recorder client component = record { client = client; component = component }
