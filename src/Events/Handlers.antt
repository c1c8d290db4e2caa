-- ===== src/Events/Handlers.antt =====
-- pkg/events/eventhandler.go, and the filter certificateIsInvolved of pkg/events/sync.go, which
-- pkg/common/controller.go repeats. The result is the list of the keys that are added to the
-- rate-limited queue.
use cert_broker.Base.{
  String, Bool, false, ◌&&◌, ◌==◌, none, some, List, [], ◌∷◌, ◌++◌, Result, ok, err, if◌then◌else◌,
}
use cert_broker.Base.Exec.{Outcome, returned, panicked}
use cert_broker.Base.Int
use cert_broker.Base.GoMap.{GoMap, index}
use cert_broker.Base.Decimal.{parse_int_32}
use cert_broker.Kube.{Event, Object, event}
use cert_broker.Kube.Api.{Api}
use cert_broker.Naming.{garden_count, cert_manager_group, certificate_kind}

unfoldable pub certificate_is_involved : Object → Bool
certificate_is_involved (event e) =
    e.involved_object.api_version == cert_manager_group
    && e.involved_object.kind == certificate_kind
certificate_is_involved _ = false

-- event.Annotations == nil
abbrev pub is_nil : GoMap → Bool
is_nil GoMap.nil = Bool.true
is_nil (GoMap.made m) = false

module _ (api : Api) where
  open api use {Error, meta_namespace_key}

  abbrev pub enqueue : Result Error String → List String
  enqueue (ok key) = key ∷ []
  enqueue (err e) = []

  abbrev pub add_to_queue : Object → List String
  add_to_queue obj = enqueue (meta_namespace_key obj)

  -- The second test of OnAdd, which is made whatever the first one gave.
  abbrev pub is_newer : Event → Bool
  is_newer e = elim (parse_int_32 (index e.annotations garden_count)) [
    | none ↦ false
    | some last_count ↦ Int.lt last_count e.count
  ]

  unfoldable pub on_add : Object → Outcome (List String)
  unfolding parse_int_32
  on_add (event e) =
      let first = if is_nil e.annotations then add_to_queue (event e) else [] in
      let second = if is_newer e then add_to_queue (event e) else [] in returned (first ++ second)
  on_add _ = panicked

  unfoldable pub on_update : Object → Object → Outcome (List String)
  on_update (event old_event) (event new_event) =
      if Int.equal old_event.count new_event.count
      then returned []
      else returned (add_to_queue (event new_event))
  on_update _ _ = panicked

  unfoldable pub on_delete : Object → Outcome (List String)
  on_delete obj = returned []
