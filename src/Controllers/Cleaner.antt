-- ===== src/Controllers/Cleaner.antt =====
-- pkg/cleaner/controller.go: Controller with its contexts, NewController and the caches that Start waits
-- for.
use cert_broker.Base.{String, Bool, List, [], ◌∷◌}
use cert_broker.Kube.Api.{Api}
use cert_broker.Template.{IngressTemplate}
use cert_broker.Cleaner.Sync as sync
use cert_broker.Informers.{Informer}
use cert_broker.Informers.Registration.{Registration, cleaner_registration}

module _ (Client : Type 0) where
  pub record ControlClusterContext : Type 0 where
    pub resource_namespace : String
    pub client : Client
    pub ingress_informer : Informer
    pub ingress_lister : Informer
    pub ingress_sync : Informer

  pub record TargetClusterContext : Type 0 where
    pub ingress_lister : Informer
    pub ingress_sync : Informer

  -- `annotation_template` is the template whose method CreateIngressAnnotations is handed over.
  pub record Controller : Type 0 where
    pub control_ctx : ControlClusterContext
    pub target_ctx : TargetClusterContext
    pub update_ingresses : Bool
    pub annotation_template : IngressTemplate
    pub workqueue : String

  module _ (api : Api) where
    unfoldable pub new_controller :
        ControlClusterContext
        → TargetClusterContext
        → Bool
        → IngressTemplate
        → Controller × (Informer × Registration)
    new_controller control_ctx target_ctx update_ingresses annotation_template = (
      record {
        control_ctx = control_ctx;
        target_ctx = target_ctx;
        update_ingresses = update_ingresses;
        annotation_template = annotation_template;
        workqueue = "Ingress";
      },
      (control_ctx.ingress_informer, cleaner_registration api control_ctx.resource_namespace),
    )

  -- The arguments of WaitForCacheSync in Start.
  unfoldable pub awaited_syncs : Controller → List Informer
  awaited_syncs c = c.target_ctx.ingress_sync ∷ c.control_ctx.ingress_sync ∷ []

  -- The fields that are values.
  abbrev pub values : String → Controller → sync.Controller
  values ingress_class c = record {
    update_ingresses = c.update_ingresses;
    ingress_class = ingress_class;
  }
