-- ===== src/Controllers/Ingress.antt =====
-- pkg/ingress/sync.go: Handler with its contexts, NewController and the methods that return fields.
use cert_broker.Base.{String, List, [], ◌∷◌}
use cert_broker.Base.GoMap.{GoMap}
use cert_broker.Kube.Api.{Api}
use cert_broker.Template.{IngressTemplate}
use cert_broker.Ingress.Sync as sync
use cert_broker.Informers.{Informer}
use cert_broker.Informers.Registration.{Registration, ingress_registration}
use cert_broker.Controllers.{Recorder, create_recorder}

module _ (Client : Type 0) where
  pub record ControlClusterContext : Type 0 where
    pub resource_namespace : String
    pub client : Client
    pub ingress_lister : Informer
    pub ingress_sync : Informer
    pub secret_lister : Informer
    pub secret_sync : Informer

  pub record TargetClusterContext : Type 0 where
    pub client : Client
    pub ingress_informer : Informer
    pub ingress_lister : Informer
    pub ingress_sync : Informer

  -- `ingress_template` is what the pointer points to at the start.
  pub record Handler : Type 0 where
    pub control_ctx : ControlClusterContext
    pub target_ctx : TargetClusterContext
    pub workqueue : String
    pub recorder : Recorder Client
    pub ingress_template : IngressTemplate
    pub domain_to_dns_provider : GoMap

  module _ (api : Api) where
    -- With the handler, what is registered on which informer.
    unfoldable pub new_controller :
        ControlClusterContext
        → TargetClusterContext
        → IngressTemplate
        → GoMap
        → Handler × (Informer × Registration)
    new_controller control_ctx target_ctx ingress_template domain_to_dns_provider = (
      record {
        control_ctx = control_ctx;
        target_ctx = target_ctx;
        workqueue = "Ingresses";
        recorder = create_recorder target_ctx.client "Cert-Broker-Ingress-Control";
        ingress_template = ingress_template;
        domain_to_dns_provider = domain_to_dns_provider;
      },
      (target_ctx.ingress_informer, ingress_registration api),
    )

  abbrev pub get_work_queue : Handler → String
  get_work_queue h = h.workqueue

  unfoldable pub get_informer_syncs : Handler → List Informer
  get_informer_syncs h =
      h.control_ctx.ingress_sync ∷ h.control_ctx.secret_sync ∷ h.target_ctx.ingress_sync ∷ []

  -- The fields that are values.
  abbrev pub values : String → Handler → sync.Handler
  values ingress_class h = record {
    resource_namespace = h.control_ctx.resource_namespace;
    domain_to_dns_provider = h.domain_to_dns_provider;
    ingress_class = ingress_class;
  }
