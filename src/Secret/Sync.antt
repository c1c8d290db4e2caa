-- ===== src/Secret/Sync.antt =====
-- pkg/secret/sync.go: Sync, and the replication of one secret.
pub mod Effects
pub mod Totality
pub mod Guarded
pub mod Logged
use cert_broker.Base.{
  String, Bool, false, ◌||◌, ◌==◌, Option, none, some, List, [], ◌∷◌, ok, err, if◌then◌else◌,
}
use cert_broker.Base.Exec.{Exec, pure, ◌>>=◌}
use cert_broker.Base.Slice.{elements}
use cert_broker.Base.GoMap.{GoMap}
use cert_broker.Kube.{Ingress, IngressTls, Secret}
use cert_broker.Kube.Api.{Api}
use cert_broker.Broker.{Broker, outside}
use cert_broker.Naming.{split_namespace, garden_purpose, managed_cert}

-- The inner loop.
unfoldable pub names_secret : List IngressTls → String → Bool
names_secret [] secret_name = false
names_secret (entry ∷ tls) secret_name =
    entry.secret_name == secret_name || names_secret tls secret_name

unfoldable pub has_ingress_in_target_cluster : List Ingress → String → Bool
unfolding names_secret
has_ingress_in_target_cluster [] secret_name = false
has_ingress_in_target_cluster (ing ∷ ingresses) secret_name =
    names_secret (elements ing.tls) secret_name
    || has_ingress_in_target_cluster ingresses secret_name

abbrev pub managed_labels : GoMap
managed_labels = GoMap.made ((garden_purpose, managed_cert) ∷ [])

-- The secret of the target cluster for a secret of the control cluster.
abbrev pub copy_of : Secret → Secret
copy_of s =
    let (namespace, name) = split_namespace s.name in
    record {
      name = name;
      namespace = namespace;
      labels = GoMap.nil;
      annotations = GoMap.nil;
      content = s.content;
    }

module _ (api : Api) where
  open api use {World, Error, is_not_found, is_already_exists, split_meta_namespace_key}
  open api use {control_secret, label_selector, target_ingresses, create_secret, update_secret}

  abbrev M : Type 0 → Type 0
  M = Exec (Broker World)

  unfoldable pub replicate_secret_to_target_cluster : Secret → M (Option Error)
  replicate_secret_to_target_cluster s = do
    let target_secret = copy_of s
    e ← outside (create_secret target_secret.namespace target_secret)
    elim e [
      | none ↦ pure none
      | some e ↦
          if is_already_exists e
          then outside (update_secret target_secret.namespace target_secret)
          else pure (some e)
    ]

  -- The rest of Sync after the secret is found, by its namespace and name in the target cluster.
  unfoldable pub sync_secret : Secret → String × String → M (Option Error)
  sync_secret s (target_namespace, target_secret_name) = elim (label_selector managed_labels) [
    | err e ↦ pure (some e)
    | ok selector ↦ do
      available ← outside (target_ingresses target_namespace selector)
      elim available [
        | err e ↦ pure (some e)
        | ok ingresses ↦
            if has_ingress_in_target_cluster ingresses target_secret_name
            then replicate_secret_to_target_cluster s
            else pure none
      ]
  ]

  unfoldable pub sync_names : String → String → M (Option Error)
  sync_names namespace secret_name = do
    found ← outside (control_secret namespace secret_name)
    elim found [
      | err e ↦ pure (if is_not_found e then none else some e)
      | ok s ↦ sync_secret s (split_namespace secret_name)
    ]

  unfoldable pub sync : String → M (Option Error)
  sync key = elim (split_meta_namespace_key key) [
    | err e ↦ pure none
    | ok (namespace, secret_name) ↦ sync_names namespace secret_name
  ]
