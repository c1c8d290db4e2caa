-- ===== src/Ingress/Sync.antt =====
-- pkg/ingress/sync.go: Sync and the three operations that it chooses from. `ingress_class` is the
-- global of pkg/utils; `domains` and `resource_namespace` are fields of the handler.
pub mod Effects
pub mod Guarded
pub mod Logged
pub mod Refinement
pub mod Convergence
pub mod Totality
pub mod Settled
pub mod Outdated
pub mod Configured
pub mod Annotated
use cert_broker.Base.{String, Option, none, some, [], ◌∷◌, ok, err, if◌then◌else◌}
use cert_broker.Base.Exec.{Exec, returned, panicked, pure, panic, ◌>>=◌, ◌>>◌}
use cert_broker.Base.Slice.{Slice, elements}
use cert_broker.Base.GoMap.{GoMap, assign}
use cert_broker.Kube.{Ingress, IngressTls}
use cert_broker.Kube.Api.{Api}
use cert_broker.Broker.{Broker, outside}
use cert_broker.Naming.{create_name_for_control_cluster}
use cert_broker.Template.{create_control_ingress, dns_provider_key}
use cert_broker.Cleanup.{clean_up_ingress_and_tls_secrets}
use cert_broker.Ingress.CopyTls.{copy_tls}
use cert_broker.Ingress.Prefix.{prefix_with_namespace, deep_equal}

-- The fields of the handler and its contexts that are values.
pub record Handler : Type 0 where
  pub resource_namespace : String
  pub domain_to_dns_provider : GoMap
  pub ingress_class : String

module _ (api : Api) (h : Handler) where
  open api use {
    World, Error, is_not_found, split_meta_namespace_key, target_ingress, control_ingress,
  }
  open api use {create_ingress as post_ingress, update_ingress as put_ingress, record_event}
  open h use {resource_namespace, domain_to_dns_provider, ingress_class}

  abbrev M : Type 0 → Type 0
  M = Exec (Broker World)

  abbrev pub notify : Ingress → String → M (Unit {0})
  notify ing message = outside (record_event ing "Normal" "Certificate" message)

  -- A write followed by an event if it succeeds.
  abbrev finish : Option Error → Ingress → String → M (Option Error)
  finish (some e) ing message = pure (some e)
  finish none ing message = do notify ing message; pure none

  -- The call of CreateControlIngress on the template that is shared.
  unfoldable pub fill_template : String → String → Slice IngressTls → M Ingress
  fill_template name dns_provider tls s =
      let (t, ing) =
        create_control_ingress ingress_class s.template name resource_namespace dns_provider tls in
      (returned ing, record s { template = t })

  create_new : String → Ingress → Slice IngressTls × String → M (Option Error)
  create_new name source (tls, dns_provider) = elim (elements tls) [
    | [] ↦ pure none
    | _ ∷ _ ↦ do
      control_ingress ← fill_template name dns_provider (prefix_with_namespace tls source.namespace)
      e ← outside (post_ingress resource_namespace control_ingress)
      finish e source "Certificate request initiated"
  ]

  unfoldable pub create_ingress : String → Ingress → M (Option Error)
  unfolding create_new
  create_ingress name source = do
    copied ← copy_tls api domain_to_dns_provider source
    create_new name source copied

  -- The write to a nil map of annotations panics.
  write_update : Ingress → Ingress → Slice IngressTls × String → M (Option Error)
  write_update target_ing control_ing (updated_tls, dns_provider) =
      elim (assign control_ing.annotations dns_provider_key dns_provider) [
        | panicked ↦ panic
        | returned annotations ↦ do
          e ← outside (
              put_ingress resource_namespace (record control_ing {
                tls = prefix_with_namespace updated_tls target_ing.namespace;
                annotations = annotations;
              }))
          finish e target_ing "Certificate update requested"
      ]

  unfoldable pub update_ingress : Ingress → Ingress → M (Option Error)
  unfolding write_update
  update_ingress target_ing control_ing =
      if deep_equal target_ing.tls control_ing.tls target_ing.namespace then pure none else do
        copied ← copy_tls api domain_to_dns_provider target_ing
        write_update target_ing control_ing copied

  unfoldable pub clean_up_ingress_and_secrets : String → M (Option Error)
  clean_up_ingress_and_secrets name = do
    found ← outside (control_ingress resource_namespace name)
    elim found [
      | err e ↦ pure (if is_not_found e then none else some e)
      | ok ing ↦ clean_up_ingress_and_tls_secrets api ing
    ]

  -- The part of Sync that has the Ingress of the target cluster.
  unfoldable pub sync_existing : String → Ingress → M (Option Error)
  sync_existing name target_ing = do
    found ← outside (control_ingress resource_namespace name)
    elim found [
      | err e ↦ if is_not_found e then create_ingress name target_ing else pure (some e)
      | ok control_ing ↦ update_ingress target_ing control_ing
    ]

  unfoldable pub sync_names : String → String → M (Option Error)
  sync_names namespace name = do
    found ← outside (target_ingress namespace name)
    let control_name = create_name_for_control_cluster namespace name
    elim found [
      | err e ↦ if is_not_found e then clean_up_ingress_and_secrets control_name else pure (some e)
      | ok target_ing ↦ sync_existing control_name target_ing
    ]

  -- A key that cannot be split is reported and dropped.
  unfoldable pub sync : String → M (Option Error)
  sync key = elim (split_meta_namespace_key key) [
    | err e ↦ pure none
    | ok (namespace, name) ↦ sync_names namespace name
  ]
