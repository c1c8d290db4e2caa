-- ===== src/Controllers/Secret.antt =====
-- pkg/secret/sync.go: Handler with its contexts, NewController and the methods that return fields.
use cert_broker.Base.{String, Bool, List, [], ◌∷◌}
use cert_broker.Kube.{Object}
use cert_broker.Kube.Api.{Api}
use cert_broker.Informers.{Informer}
use cert_broker.Informers.Registration.{Registration, secret_registration}

module _ (Client : Type 0) where
  pub record ControlClusterContext : Type 0 where
    pub resource_namespace : String
    pub client : Client
    pub secret_lister : Informer
    pub secret_informer : Informer
    pub secret_sync : Informer

  pub record TargetClusterContext : Type 0 where
    pub client : Client
    pub ingress_lister : Informer
    pub ingress_sync : Informer

  pub record Handler : Type 0 where
    pub control_ctx : ControlClusterContext
    pub target_ctx : TargetClusterContext
    pub workqueue : String

  module _ (api : Api) (deep_equal : Object → Object → Bool) where
    unfoldable pub new_controller :
        ControlClusterContext → TargetClusterContext → Handler × (Informer × Registration)
    new_controller control_ctx target_ctx = (
      record { control_ctx = control_ctx; target_ctx = target_ctx; workqueue = "Secrets" },
      (
        control_ctx.secret_informer,
        secret_registration api deep_equal control_ctx.resource_namespace,
      ),
    )

  abbrev pub get_work_queue : Handler → String
  get_work_queue h = h.workqueue

  unfoldable pub get_informer_syncs : Handler → List Informer
  get_informer_syncs h = h.control_ctx.secret_sync ∷ []
