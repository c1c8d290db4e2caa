-- ===== src/Options/Laws.antt =====
-- cmd/controller-manager.go: which options are accepted.
use cert_broker.Base.{String, Bool, true, false, ◌≡◌, ◌↔◌, ◌⊎◌, none, arith}
use cert_broker.Base.Text.{nonempty}
use cert_broker.Options.{Options, validate_controller_options}

-- The options are accepted exactly if the configuration file of the target cluster exists, that of
-- the control cluster is not given or exists, and a challenge type is given, whichever files exist.
pub validate_controller_options_iff :
    (is_not_exist : String → Bool) (o : Options)
    → (validate_controller_options is_not_exist o ≡ none) ↔ (
        (is_not_exist o.target_cluster_kubeconf ≡ false)
        × ((nonempty o.control_cluster_kubeconf ≡ false)
            ⊎ (is_not_exist o.control_cluster_kubeconf ≡ false))
        × (nonempty o.acme_challenge_type ≡ true))
unfolding validate_controller_options
validate_controller_options_iff is_not_exist o = ground arith
