-- ===== src/Filter.antt =====
-- pkg/utils/controller-helper.go: the filter on the resources that the broker manages in the control
-- cluster.
pub mod Laws
use cert_broker.Base.{String, Bool, false, ◌&&◌, ◌==◌, none, some}
use cert_broker.Base.Text.{nonempty}
use cert_broker.Kube.{Object, as_meta}
use cert_broker.Naming.{split_namespace}

pub record ControlClusterResourceFilter : Type 0 where
  pub namespace : String

accepts : ControlClusterResourceFilter → String → String → String × String → Bool
accepts f resource_name resource_namespace (namespace, name) =
    nonempty namespace && (nonempty name && resource_namespace == f.namespace)

unfoldable pub filter_method : ControlClusterResourceFilter → Object → Bool
unfolding accepts
filter_method f obj = elim (as_meta obj) [
  | none ↦ false
  | some (name, namespace) ↦ accepts f name namespace (split_namespace name)
]
