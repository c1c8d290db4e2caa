-- ===== src/Ingress/Handlers.antt =====
-- pkg/ingress/eventhandler.go, behind the filter that NewController registers. The result is the
-- list of the keys that are added to the rate-limited queue.
use cert_broker.Base.{String, List, [], ◌∷◌, Result, ok, err, if◌then◌else◌}
use cert_broker.Base.Exec.{Outcome, returned, panicked}
use cert_broker.Kube.{Object, ingress}
use cert_broker.Kube.Api.{Api}
use cert_broker.Ingress.Prefix.{equal_tls}

module _ (api : Api) where
  open api use {Error, meta_namespace_key, deletion_meta_namespace_key}

  abbrev pub enqueue : Result Error String → List String
  enqueue (ok key) = key ∷ []
  enqueue (err e) = []

  unfoldable pub on_add : Object → Outcome (List String)
  on_add obj = returned (enqueue (meta_namespace_key obj))

  -- The type assertions panic on an object of another type.
  unfoldable pub on_update : Object → Object → Outcome (List String)
  unfolding on_add equal_tls
  on_update (ingress old_ingress) (ingress new_ingress) =
      if equal_tls old_ingress.tls new_ingress.tls
      then returned []
      else on_add (ingress new_ingress)
  on_update _ _ = panicked

  unfoldable pub on_delete : Object → Outcome (List String)
  on_delete obj = returned (enqueue (deletion_meta_namespace_key obj))
