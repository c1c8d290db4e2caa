-- ===== src/Naming.antt =====
-- pkg/utils/naming.go: the constants, and the names under which resources of the target cluster
-- stand in the control cluster. The constants of the three tokens are the patterns of `pick`.
pub mod Split
use Prim.Native.String.{◌++◌ as ◌<>◌}
use cert_broker.Base.{String, ◌==◌, Bool, false, List, [], ◌∷◌}
use cert_broker.Base.Text.{split_n}
use cert_broker.Base.GoMap.{index}
use cert_broker.Kube.{Object, ingress}

abbrev pub garden_purpose : String
garden_purpose = "garden.sapcloud.io/purpose"

abbrev pub garden_count : String
garden_count = "garden.sapcloud.io/count"

abbrev pub managed_cert : String
managed_cert = "managed-cert"

abbrev pub cert_manager_group : String
cert_manager_group = "certmanager.k8s.io"

abbrev pub certificate_kind : String
certificate_kind = "Certificate"

abbrev pub ingress_kind : String
ingress_kind = "Ingress"

abbrev pub name_separator : String
name_separator = "."

-- The branches on the number of parts.
pick : String → List String → String × String
pick s (a ∷ []) = ("", s)
pick s (a ∷ b ∷ c ∷ []) = (b, c)
pick s _ = ("", "")

unfoldable pub split_namespace : String → String × String
unfolding pick split_n
split_namespace s = pick s (split_n s 3)

unfoldable pub create_name_for_control_cluster : String → String → String
create_name_for_control_cluster namespace name =
    managed_cert <> (name_separator <> (namespace <> (name_separator <> name)))

unfoldable pub filter_on_ingress_labels : Object → Bool
filter_on_ingress_labels (ingress i) = index i.labels garden_purpose == managed_cert
filter_on_ingress_labels _ = false
