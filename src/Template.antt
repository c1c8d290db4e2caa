-- ===== src/Template.antt =====
-- pkg/utils/controller-helper.go: the template of the Ingress resources in the control cluster.
-- `ingress_class` is the global variable of that file, which its init function sets.
pub mod Laws
pub mod Calls
pub mod Class
use cert_broker.Base.{String, Bool, [], ◌∷◌, if◌then◌else◌}
use cert_broker.Base.Text.{nonempty}
use cert_broker.Base.Slice.{Slice}
use cert_broker.Base.GoMap
use cert_broker.Base.GoMap.{GoMap, Pairs, insert}
use cert_broker.Kube.{Ingress, IngressTls}
use cert_broker.Naming.{managed_cert}

abbrev pub dns_provider_key : String
dns_provider_key = "certmanager.k8s.io/acme-dns01-provider"

abbrev pub class_key : String
class_key = "kubernetes.io/ingress.class"

abbrev pub tls_acme_key : String
tls_acme_key = "kubernetes.io/tls-acme"

abbrev pub cluster_issuer_key : String
cluster_issuer_key = "certmanager.k8s.io/cluster-issuer"

abbrev pub challenge_type_key : String
challenge_type_key = "certmanager.k8s.io/acme-challenge-type"

pub record IngressTemplate : Type 0 where
  pub issuer_name : String
  pub challenge_type : String
  pub dns01_provider : String

unfoldable pub create_ingress_template : String → String → IngressTemplate
create_ingress_template issuer_name challenge_type = record {
  issuer_name = issuer_name;
  challenge_type = challenge_type;
  dns01_provider = "";
}

-- The entries that CreateIngressAnnotations writes first.
abbrev pub common_pairs : String → IngressTemplate → Pairs
common_pairs ingress_class t =
    (class_key, ingress_class)
    ∷ (tls_acme_key, "true")
    ∷ (cluster_issuer_key, t.issuer_name)
    ∷ (challenge_type_key, t.challenge_type)
    ∷ []

-- The entry of the provider, which depends on the outcome of the test `len(t.dns01Provider) > 0`.
abbrev pub add_provider : Bool → IngressTemplate → Pairs → Pairs
add_provider tested t annotations =
    if tested then insert dns_provider_key t.dns01_provider annotations else annotations

-- The entries of the map that CreateIngressAnnotations returns.
unfoldable pub annotation_pairs : String → IngressTemplate → Pairs
unfolding insert
annotation_pairs ingress_class t =
    let annotations = common_pairs ingress_class t in
    add_provider (nonempty t.dns01_provider) t annotations

abbrev pub create_ingress_annotations : String → IngressTemplate → GoMap
create_ingress_annotations ingress_class t = GoMap.made (annotation_pairs ingress_class t)

-- The method writes the provider to the template that it is called on: the new template comes
-- first.
unfoldable pub create_control_ingress :
    String
    → IngressTemplate
    → String
    → String
    → String
    → Slice IngressTls
    → IngressTemplate × Ingress
create_control_ingress ingress_class t name namespace dns_provider tls =
    let t' = record t { dns01_provider = dns_provider } in
    (
      t',
      record {
        name = name;
        namespace = namespace;
        labels = GoMap.nil;
        annotations = create_ingress_annotations ingress_class t';
        tls = tls;
        rule_hosts = managed_cert ∷ [];
      },
    )
