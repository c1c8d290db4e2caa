-- ===== src/Cleaner/Sync.antt =====
-- pkg/cleaner/controller.go: syncHandler. The result is whether the key is to be checked again, and
-- the error.
pub mod Annotations
pub mod Provider
pub mod Refresh
pub mod Annotated
pub mod Sweep
pub mod Totality
pub mod Guarded
pub mod Logged
use cert_broker.Base.{
  String, Bool, true, false, Option, none, some, [], ◌∷◌, ok, err, if◌then◌else◌,
}
use cert_broker.Base.Exec.{Exec, Outcome, returned, panicked, pure, ◌>>=◌}
use cert_broker.Base.GoMap.{GoMap, Pairs, assign}
use cert_broker.Kube.{Ingress, ingress}
use cert_broker.Kube.Api.{Api}
use cert_broker.Broker.{Broker, outside}
use cert_broker.Naming.{split_namespace, filter_on_ingress_labels}
use cert_broker.Template.{create_ingress_annotations}
use cert_broker.Cleanup.{clean_up_ingress_and_tls_secrets}

-- The loop that overrides the annotations, in the order of the range.
unfoldable pub override : Pairs → GoMap → Outcome GoMap
override [] annotations = returned annotations
override ((k, v) ∷ m) annotations = elim (assign annotations k v) [
  | panicked ↦ panicked
  | returned annotations' ↦ override m annotations'
]

-- The field updateIngresses, and the global of pkg/utils that annotationTemplate reads: it is the
-- method CreateIngressAnnotations of the template that is shared.
pub record Controller : Type 0 where
  pub update_ingresses : Bool
  pub ingress_class : String

module _ (api : Api) (c : Controller) where
  open api use {World, Error, is_not_found, split_meta_namespace_key}
  open api use {target_ingress, control_ingress, update_ingress, range}
  open c use {update_ingresses, ingress_class}

  abbrev M : Type 0 → Type 0
  M = Exec (Broker World)

  abbrev pub read_template : M GoMap
  read_template s = (returned (create_ingress_annotations ingress_class s.template), s)

  abbrev pub raise_panic : {A : Type 0} → Outcome A → M A
  raise_panic r s = (r, s)

  unfoldable pub update_annotations : String → Ingress → M (Bool × Option Error)
  update_annotations namespace control_ing = do
    annotations ← read_template
    entries ← outside (range annotations)
    overridden ← raise_panic (override entries control_ing.annotations)
    e ← outside (update_ingress namespace (record control_ing { annotations = overridden }))
    pure (true, e)

  abbrev pub clean_up : Ingress → M (Bool × Option Error)
  clean_up control_ing = do e ← clean_up_ingress_and_tls_secrets api control_ing; pure (false, e)

  -- The part of syncHandler that has both Ingress resources.
  unfoldable pub check_target : String → Ingress → Ingress → M (Bool × Option Error)
  check_target namespace control_ing target_ing =
      if filter_on_ingress_labels (ingress target_ing)
      then (if update_ingresses
          then update_annotations namespace control_ing
          else pure (true, none))
      else clean_up control_ing

  unfoldable pub sync_control : String → Ingress → String × String → M (Bool × Option Error)
  sync_control namespace control_ing (target_namespace, target_name) = do
    found ← outside (target_ingress target_namespace target_name)
    elim found [
      | err e ↦ if is_not_found e then clean_up control_ing else pure (true, some e)
      | ok target_ing ↦ check_target namespace control_ing target_ing
    ]

  unfoldable pub sync_names : String → String → M (Bool × Option Error)
  sync_names namespace name = do
    found ← outside (control_ingress namespace name)
    elim found [
      | err e ↦ pure (if is_not_found e then (false, none) else (true, some e))
      | ok control_ing ↦ sync_control namespace control_ing (split_namespace name)
    ]

  unfoldable pub sync_handler : String → M (Bool × Option Error)
  sync_handler key = elim (split_meta_namespace_key key) [
    | err e ↦ pure (true, none)
    | ok (namespace, name) ↦ sync_names namespace name
  ]
