-- ===== src/Controllers/Events.antt =====
-- pkg/events/sync.go: Handler with its contexts, NewController and the methods that return fields.
use cert_broker.Base.{String, List, [], ◌∷◌}
use cert_broker.Kube.Api.{Api}
use cert_broker.Informers.{Informer}
use cert_broker.Informers.Registration.{Registration, event_registration}
use cert_broker.Controllers.{Recorder, create_recorder}

module _ (Client : Type 0) where
  pub record ControlClusterContext : Type 0 where
    pub event_informer : Informer
    pub event_lister : Informer
    pub event_sync : Informer
    pub certificates_lister : Informer
    pub certificates_sync : Informer
    pub client : Client

  pub record TargetClusterContext : Type 0 where
    pub client : Client
    pub ingress_lister : Informer
    pub ingress_sync : Informer

  pub record Handler : Type 0 where
    pub control_ctx : ControlClusterContext
    pub target_ctx : TargetClusterContext
    pub workqueue : String
    pub recorder : Recorder Client

  module _ (api : Api) where
    unfoldable pub new_controller :
        ControlClusterContext → TargetClusterContext → Handler × (Informer × Registration)
    new_controller control_ctx target_ctx = (
      record {
        control_ctx = control_ctx;
        target_ctx = target_ctx;
        workqueue = "Events";
        recorder = create_recorder target_ctx.client "Cert-Broker-Ingress-Control";
      },
      (control_ctx.event_informer, event_registration api),
    )

  abbrev pub get_work_queue : Handler → String
  get_work_queue h = h.workqueue

  unfoldable pub get_informer_syncs : Handler → List Informer
  get_informer_syncs h =
      h.control_ctx.certificates_sync ∷ h.control_ctx.event_sync ∷ h.target_ctx.ingress_sync ∷ []
