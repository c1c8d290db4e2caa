-- ===== src/Tests/Naming.antt =====
-- Names, the options, the filter, the template and the comparison of TLS sections.
use cert_broker.Base.{String, ◌≡◌, ◌↔◌, refl, some, none, [], ◌∷◌, true, ◌==◌, if◌then◌else◌}
use cert_broker.Kube.{secret}
use cert_broker.Naming.{split_namespace, create_name_for_control_cluster}
use cert_broker.Naming.Split.{
  Reads, dot_free, split_namespace_iff, split_namespace-create_name_for_control_cluster,
}
use cert_broker.Filter.{filter_method}
use cert_broker.Filter.Laws.{IsControlName, filter_method_iff}
use cert_broker.Base.{◌⊎◌, Bool, not, ◌==◌, false, none}
use cert_broker.Tests.Data.{tls_secret}

name_of_copy : create_name_for_control_cluster "shop" "web" ≡ "managed-cert.shop.web"
unfolding create_name_for_control_cluster
name_of_copy = refl

split_of_copy : split_namespace "managed-cert.shop.web" ≡ ("shop", "web")
unfolding split_namespace cert_broker.Base.Text.cut
split_of_copy = refl

split_of_plain : split_namespace "web" ≡ ("", "web")
unfolding split_namespace cert_broker.Base.Text.cut
split_of_plain = refl

split_namespace_iff_example : (split_namespace "shop.web" ≡ ("", "")) ↔ Reads "shop.web" "" ""
split_namespace_iff_example = split_namespace_iff "shop.web" "" ""

split_namespace-create_name_for_control_cluster_example :
    split_namespace (create_name_for_control_cluster "shop" "web.v2") ≡ ("shop", "web.v2")
unfolding dot_free
split_namespace-create_name_for_control_cluster_example =
    split_namespace-create_name_for_control_cluster "shop" "web.v2" refl

filter_method_iff_example :
    (filter_method (record { namespace = "control" }) (secret tls_secret) ≡ true)
    ↔ (IsControlName tls_secret.name × (tls_secret.namespace ≡ "control"))
filter_method_iff_example =
    filter_method_iff (record { namespace = "control" }) (secret tls_secret) "managed-cert.shop.tls"
      "control" refl

-- Only one file is there.
abbrev no_such_file : String → Bool
no_such_file path = not (path == "/target")
