-- ===== src/Informers/Registration/Notified.antt =====
-- What the registered handlers queue for a notification.
use cert_broker.Base.{String, Bool, true, List, [], ◌≡◌, refl, ◌∙◌, inl, inr, arith}
use cert_broker.Base.{Bool-cases}
use cert_broker.Base.Exec.{Outcome, returned}
use cert_broker.Kube.{Object, ingress, event, tombstone}
use cert_broker.Kube.Api.{Api}
use cert_broker.Naming.{filter_on_ingress_labels}
use cert_broker.Filter.{filter_method}
use cert_broker.Ingress.Prefix.{equal_tls}
use cert_broker.Ingress.Handlers as handlers
use cert_broker.Events.Handlers as events
use cert_broker.Events.Handlers.{certificate_is_involved}
use cert_broker.Base.Int
use cert_broker.Informers.Registration.{
  Registration, Notification, added, updated, deleted, IsFiltering, IsRegistered, of_ingress,
  of_secret, of_events, of_cleaner, ingress_registration, secret_registration, event_registration,
  cleaner_registration,
}

-- The handlers return, when they are called on objects that pass the filter.
record Calm (r : Registration) : Type 0 where
  add : (o : Object) → r.filter_func o ≡ true → (keys : List String) × (r.on_add o ≡ returned keys)
  update :
      (o n : Object)
      → r.filter_func o ≡ true
      → r.filter_func n ≡ true
      → (keys : List String) × (r.on_update o n ≡ returned keys)
  delete :
      (o : Object) → r.filter_func o ≡ true → (keys : List String) × (r.on_delete o ≡ returned keys)

module _ (dispatch : Registration → Notification → Outcome (List String))
    (filtering : IsFiltering dispatch) where
  open filtering use {
    added_in, added_out, updated_in, updated_enters, updated_leaves, updated_out, deleted_in,
    deleted_out,
  }

  Calm-dispatch :
      (r : Registration)
      → Calm r
      → (n : Notification) → (keys : List String) × (dispatch r n ≡ returned keys)
  Calm-dispatch r calm (added o) = elim (Bool-cases (r.filter_func o)) [
    | inl e ↦ let (keys, k) = calm.add o e in (keys, added_in r o e ∙ k)
    | inr e ↦ ([], added_out r o e)
  ]
  Calm-dispatch r calm (updated o n) = elim (Bool-cases (r.filter_func o)) [
    | inl e ↦ elim (Bool-cases (r.filter_func n)) [
      | inl e' ↦ let (keys, k) = calm.update o n e e' in (keys, updated_in r o n e e' ∙ k)
      | inr e' ↦ let (keys, k) = calm.delete o e in (keys, updated_leaves r o n e e' ∙ k)
    ]
    | inr e ↦ elim (Bool-cases (r.filter_func n)) [
      | inl e' ↦ let (keys, k) = calm.add n e' in (keys, updated_enters r o n e e' ∙ k)
      | inr e' ↦ ([], updated_out r o n e e')
    ]
  ]
  Calm-dispatch r calm (deleted o) = elim (Bool-cases (r.filter_func o)) [
    | inl e ↦ let (keys, k) = calm.delete o e in (keys, deleted_in r o e ∙ k)
    | inr e ↦ ([], deleted_out r o e)
  ]

module _ (api : Api) where
  ingress_update-returned :
      (o n : Object)
      → filter_on_ingress_labels o ≡ true
      → filter_on_ingress_labels n ≡ true
      → (keys : List String) × (handlers.on_update api o n ≡ returned keys)
  unfolding filter_on_ingress_labels handlers.on_update handlers.on_add
  ingress_update-returned (ingress i) (ingress j) e e' = elim (Bool-cases (equal_tls i.tls j.tls)) [
    | inl b ↦ ([], rw b refl)
    | inr b ↦ (handlers.enqueue api (api.meta_namespace_key (ingress j)), rw b refl)
  ]
  ingress_update-returned _ _ e e' = absurd (ground arith)

  ingress-Calm : Calm (ingress_registration api)
  unfolding ingress_registration handlers.on_add handlers.on_delete
  ingress-Calm = record {
    add = λ o e. (_, refl);
    update = ingress_update-returned;
    delete = λ o e. (_, refl);
  }

  event_add-returned :
      (o : Object)
      → certificate_is_involved o ≡ true
      → (keys : List String) × (events.on_add api o ≡ returned keys)
  unfolding certificate_is_involved events.on_add
  event_add-returned (event e) c = (_, refl)
  event_add-returned _ c = absurd (ground arith)

  event_update-returned :
      (o n : Object)
      → certificate_is_involved o ≡ true
      → certificate_is_involved n ≡ true
      → (keys : List String) × (events.on_update api o n ≡ returned keys)
  unfolding certificate_is_involved events.on_update
  event_update-returned (event e) (event f) c c' = elim (Bool-cases (Int.equal e.count f.count)) [
    | inl b ↦ ([], rw b refl)
    | inr b ↦ (events.add_to_queue api (event f), rw b refl)
  ]
  event_update-returned _ _ c c' = absurd (ground arith)

  event-Calm : Calm (event_registration api)
  unfolding event_registration events.on_delete
  event-Calm = record {
    add = event_add-returned;
    update = event_update-returned;
    delete = λ o e. ([], refl);
  }

  secret-Calm :
      (deep_equal : Object → Object → Bool) (resource_namespace : String)
      → Calm (secret_registration api deep_equal resource_namespace)
  unfolding secret_registration
  secret-Calm deep_equal resource_namespace = record {
    add = λ o e. (_, refl);
    update = λ o n e e'. (_, refl);
    delete = λ o e. (_, refl);
  }

  cleaner-Calm : (resource_namespace : String) → Calm (cleaner_registration api resource_namespace)
  unfolding cleaner_registration
  cleaner-Calm resource_namespace = record {
    add = λ o e. (_, refl);
    update = λ o n e e'. (_, refl);
    delete = λ o e. (_, refl);
  }

module _ (api : Api) (dispatch : Registration → Notification → Outcome (List String))
    (filtering : IsFiltering dispatch) (deep_equal : Object → Object → Bool)
    (resource_namespace : String) where
  -- If the registered filter works as documented, then no notification about any objects makes the
  -- handlers of any of the four controllers panic.
  pub dispatch-returned :
      (r : Registration) (n : Notification)
      → IsRegistered api deep_equal resource_namespace r
      → (keys : List String) × (dispatch r n ≡ returned keys)
  dispatch-returned r n of_ingress = Calm-dispatch dispatch filtering r (ingress-Calm api) n
  dispatch-returned r n of_secret =
      Calm-dispatch dispatch filtering r (secret-Calm api deep_equal resource_namespace) n
  dispatch-returned r n of_events = Calm-dispatch dispatch filtering r (event-Calm api) n
  dispatch-returned r n of_cleaner =
      Calm-dispatch dispatch filtering r (cleaner-Calm api resource_namespace) n

  -- If the registered filter works as documented, then the deletion of an object whose final state
  -- is unknown queues nothing, in any of the four controllers.
  pub dispatch-tombstone :
      (r : Registration) (key : String)
      → IsRegistered api deep_equal resource_namespace r
      → dispatch r (deleted (tombstone key)) ≡ returned []
  unfolding ingress_registration secret_registration event_registration cleaner_registration
      filter_on_ingress_labels filter_method certificate_is_involved
  dispatch-tombstone r key of_ingress = filtering.deleted_out r (tombstone key) refl
  dispatch-tombstone r key of_secret = filtering.deleted_out r (tombstone key) refl
  dispatch-tombstone r key of_events = filtering.deleted_out r (tombstone key) refl
  dispatch-tombstone r key of_cleaner = filtering.deleted_out r (tombstone key) refl
