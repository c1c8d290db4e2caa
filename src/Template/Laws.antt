-- ===== src/Template/Laws.antt =====
-- pkg/utils/controller-helper.go: the annotations that a template yields.
use cert_broker.Base.{String, ◌≡◌, Option, none, some, arith, if◌then◌else◌, ◌==◌}
use cert_broker.Base.{Bool-cases, inl, inr}
use cert_broker.Base.Text.{nonempty}
use cert_broker.Base.GoMap.{lookup, NodupKeys}
use cert_broker.Template.{
  IngressTemplate, annotation_pairs, dns_provider_key, class_key, tls_acme_key, cluster_issuer_key,
  challenge_type_key,
}

-- The entry of the provider, which is there only if the provider is not empty.
abbrev pub provider_entry : IngressTemplate → Option String
provider_entry t = if nonempty t.dns01_provider then some t.dns01_provider else none

module _ (ingress_class : String) (t : IngressTemplate) where
  -- The annotations of a template are the four fixed keys with their values, the provider if it is
  -- not empty, and no other key.
  pub lookup-annotation_pairs :
      (k : String)
      → lookup k (annotation_pairs ingress_class t) ≡ (
          if class_key == k
          then some ingress_class
          else if tls_acme_key == k
          then some "true"
          else if cluster_issuer_key == k
          then some t.issuer_name
          else if challenge_type_key == k
          then some t.challenge_type
          else if dns_provider_key == k
          then provider_entry t
          else none)
  unfolding annotation_pairs lookup
  lookup-annotation_pairs k = elim (Bool-cases (nonempty t.dns01_provider)) [
    | inl e ↦ ground arith
    | inr e ↦ ground arith
  ]

  pub annotation_pairs-NodupKeys : NodupKeys (annotation_pairs ingress_class t)
  unfolding annotation_pairs lookup
  annotation_pairs-NodupKeys = ground arith
