-- ===== src/Cleaner/Handlers.antt =====
-- pkg/cleaner/eventhandler.go. The result is the list of the keys that are added to the queue.
use cert_broker.Base.{String, List, [], ◌∷◌, Result, ok, err}
use cert_broker.Kube.{Object}
use cert_broker.Kube.Api.{Api}

module _ (api : Api) where
  open api use {Error, meta_namespace_key}

  abbrev pub enqueue : Result Error String → List String
  enqueue (ok key) = key ∷ []
  enqueue (err e) = []

  unfoldable pub on_add : Object → List String
  on_add obj = enqueue (meta_namespace_key obj)

  unfoldable pub on_update : Object → Object → List String
  on_update old_obj new_obj = []

  unfoldable pub on_delete : Object → List String
  on_delete obj = []
