-- ===== src/Events/Sync.antt =====
-- pkg/events/sync.go: Sync, and its loop over the owner references of the certificate.
-- `extensions_version` stands for v1beta1.SchemeGroupVersion.String().
pub mod Effects
pub mod Totality
pub mod Guarded
pub mod Logged
use cert_broker.Base.{String, ◌&&◌, ◌==◌, Option, none, some, List, [], ◌∷◌, ok, err, if◌then◌else◌}
use cert_broker.Base.Exec.{Exec, pure, ◌>>=◌, ◌>>◌}
use cert_broker.Base.GoMap.{GoMap, pairs, insert}
use cert_broker.Base.Decimal.{itoa}
use cert_broker.Kube.{Event, Certificate, OwnerReference}
use cert_broker.Kube.Api.{Api}
use cert_broker.Broker.{Broker, outside}
use cert_broker.Naming.{split_namespace, garden_count, ingress_kind}

-- The deep copy of the event, with the count as an annotation.
unfoldable pub counted : Event → Event
unfolding itoa insert
counted e = record e {
  annotations = GoMap.made (insert garden_count (itoa e.count) (pairs e.annotations));
}

module _ (api : Api) (extensions_version : String) where
  open api use {World, Error, is_not_found, split_meta_namespace_key}
  open api use {control_event, control_certificate, target_ingress, record_event, update_event}

  abbrev M : Type 0 → Type 0
  M = Exec (Broker World)

  -- The body of the loop for an Ingress: whether the function returns, and with which error.
  unfoldable pub replicate_event : String → Event → String × String → M (Option (Option Error))
  replicate_event namespace event (ing_namespace, ing_name) = do
    found ← outside (target_ingress ing_namespace ing_name)
    elim found [
      | err e ↦ pure (some (if is_not_found e then none else some e))
      | ok target_ing ↦ do
        outside (record_event target_ing event.kind event.reason event.message)
        e ← outside (update_event namespace (counted event))
        elim e [ none ↦ pure none | some e ↦ pure (some (some e)) ]
    ]

  unfoldable pub visit_owners : String → Event → List OwnerReference → M (Option Error)
  visit_owners namespace event [] = pure none
  visit_owners namespace event (owner ∷ owners) =
      let rest = visit_owners namespace event owners in
      if owner.api_version == extensions_version && owner.kind == ingress_kind
      then (do
        result ← replicate_event namespace event (split_namespace owner.name)
        elim result [ none ↦ rest | some e ↦ pure e ])
      else rest

  unfoldable pub sync_event : String → Event → M (Option Error)
  sync_event namespace event = do
    found ← outside (control_certificate event.involved_object.namespace event.involved_object.name)
    elim found [
      | err e ↦ pure (some e)
      | ok Certificate.nil ↦ pure none
      | ok (Certificate.unstructured owners) ↦ visit_owners namespace event owners
      | ok Certificate.foreign ↦ pure none
    ]

  unfoldable pub sync_names : String → String → M (Option Error)
  sync_names namespace name = do
    found ← outside (control_event namespace name)
    elim found [ err e ↦ pure (some e) | ok event ↦ sync_event namespace event ]

  unfoldable pub sync : String → M (Option Error)
  sync key = elim (split_meta_namespace_key key) [
    | err e ↦ pure none
    | ok (namespace, name) ↦ sync_names namespace name
  ]
