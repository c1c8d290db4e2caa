-- ===== src/Options.antt =====
-- cmd/options.go: the options with the defaults of their flags, and validateControllerOptions of
-- cmd/controller-manager.go. Durations are nanoseconds; the texts of flags and errors are left out.
pub mod Laws
use cert_broker.Base.{ℕ, String, Bool, true, false, Option, none, some, List, ◌&&◌, if◌then◌else◌}
use cert_broker.Base.Text.{nonempty}
use cert_broker.Base.GoMap
use cert_broker.Base.GoMap.{GoMap}

pub record Options : Type 0 where
  pub target_cluster_kubeconf : String
  pub control_cluster_kubeconf : String
  pub resource_namespace : String
  pub cluster_issuer : String
  pub acme_challenge_type : String
  pub domain_to_dns_provider : GoMap
  pub update_control_ingress : Bool
  pub leader_election : Bool
  pub ingress_worker_count : ℕ
  pub secret_worker_count : ℕ
  pub cleanup_worker_count : ℕ
  pub event_worker_count : ℕ
  pub sync_interval : ℕ

-- The values that addFlags registers for flags that are not given.
abbrev pub new_controller_options : Options
new_controller_options = record {
  target_cluster_kubeconf = "";
  control_cluster_kubeconf = "";
  resource_namespace = "default";
  cluster_issuer = "";
  acme_challenge_type = "dns01";
  domain_to_dns_provider = GoMap.made List.[];
  update_control_ingress = true;
  leader_election = false;
  ingress_worker_count = 4;
  secret_worker_count = 4;
  cleanup_worker_count = 1;
  event_worker_count = 4;
  sync_interval = 30_000_000_000;
}

-- The two errors: the path of a file that does not exist, and no challenge type.
pub data Invalid : Type 0 where
  no_file : String → Invalid
  no_challenge_type : Invalid

-- `is_not_exist` is os.IsNotExist of the error of os.Stat.
module _ (is_not_exist : String → Bool) where
  unfoldable pub validate_controller_options : Options → Option Invalid
  validate_controller_options o =
      if is_not_exist o.target_cluster_kubeconf
      then some (no_file o.target_cluster_kubeconf)
      else if nonempty o.control_cluster_kubeconf && is_not_exist o.control_cluster_kubeconf
      then some (no_file o.control_cluster_kubeconf)
      else if nonempty o.acme_challenge_type
      then none
      else some no_challenge_type
