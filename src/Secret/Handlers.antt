-- ===== src/Secret/Handlers.antt =====
-- pkg/secret/eventhandler.go. The result is the list of the keys that are added to the rate-limited
-- queue. `deep_equal` stands for reflect.DeepEqual on whole objects, fields that are not modelled
-- included.
use cert_broker.Base.{String, Bool, List, [], ◌∷◌, Result, ok, err, if◌then◌else◌}
use cert_broker.Kube.{Object}
use cert_broker.Kube.Api.{Api}

module _ (api : Api) (deep_equal : Object → Object → Bool) where
  open api use {Error, meta_namespace_key}

  abbrev pub enqueue : Result Error String → List String
  enqueue (ok key) = key ∷ []
  enqueue (err e) = []

  unfoldable pub on_add : Object → List String
  on_add obj = enqueue (meta_namespace_key obj)

  unfoldable pub on_update : Object → Object → List String
  unfolding on_add
  on_update old_obj new_obj = if deep_equal old_obj new_obj then [] else on_add new_obj

  unfoldable pub on_delete : Object → List String
  on_delete obj = []
