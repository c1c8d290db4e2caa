-- ===== src/Informers/Registration.antt =====
-- The event handlers that the four NewController functions register on an informer, each behind a
-- filter, and cache.FilteringResourceEventHandler, which is not part of the repository.
pub mod Notified
pub mod Lifecycle
use cert_broker.Base.{String, Bool, true, false, List, [], ◌≡◌}
use cert_broker.Base.Exec.{Outcome, returned}
use cert_broker.Kube.{Object}
use cert_broker.Kube.Api.{Api}
use cert_broker.Naming.{filter_on_ingress_labels}
use cert_broker.Filter.{ControlClusterResourceFilter, filter_method}
use cert_broker.Ingress.Handlers as ingress
use cert_broker.Secret.Handlers as secret
use cert_broker.Events.Handlers as events
use cert_broker.Cleaner.Handlers as cleaner

-- The literal of FilteringResourceEventHandler: FilterFunc, and the methods of Handler, whose results
-- are the keys that are queued.
pub record Registration : Type 0 where
  pub filter_func : Object → Bool
  pub on_add : Object → Outcome (List String)
  pub on_update : Object → Object → Outcome (List String)
  pub on_delete : Object → Outcome (List String)

module _ (api : Api) where
  -- NewController of pkg/ingress/sync.go, on the Ingress informer of the target cluster
  unfoldable pub ingress_registration : Registration
  ingress_registration = record {
    filter_func = filter_on_ingress_labels;
    on_add = ingress.on_add api;
    on_update = ingress.on_update api;
    on_delete = ingress.on_delete api;
  }

  -- NewController of pkg/secret/sync.go, on the secret informer of the control cluster
  unfoldable pub secret_registration : (Object → Object → Bool) → String → Registration
  secret_registration deep_equal resource_namespace = record {
    filter_func = filter_method (record { namespace = resource_namespace });
    on_add = λ obj. returned (secret.on_add api deep_equal obj);
    on_update = λ old_obj new_obj. returned (secret.on_update api deep_equal old_obj new_obj);
    on_delete = λ obj. returned (secret.on_delete api deep_equal obj);
  }

  -- NewController of pkg/events/sync.go, on the event informer of the control cluster
  unfoldable pub event_registration : Registration
  event_registration = record {
    filter_func = events.certificate_is_involved;
    on_add = events.on_add api;
    on_update = events.on_update api;
    on_delete = events.on_delete api;
  }

  -- NewController of pkg/cleaner/controller.go, on the Ingress informer of the control cluster
  unfoldable pub cleaner_registration : String → Registration
  cleaner_registration resource_namespace = record {
    filter_func = filter_method (record { namespace = resource_namespace });
    on_add = λ obj. returned (cleaner.on_add api obj);
    on_update = λ old_obj new_obj. returned (cleaner.on_update api old_obj new_obj);
    on_delete = λ obj. returned (cleaner.on_delete api obj);
  }

-- The four that cmd/controller-manager.go makes.
pub data IsRegistered (api : Api) (deep_equal : Object → Object → Bool)
    (resource_namespace : String) : Registration → Type 0 where
  of_ingress : IsRegistered api deep_equal resource_namespace (ingress_registration api)
  of_secret :
      IsRegistered api deep_equal resource_namespace
        (secret_registration api deep_equal resource_namespace)
  of_events : IsRegistered api deep_equal resource_namespace (event_registration api)
  of_cleaner :
      IsRegistered api deep_equal resource_namespace (cleaner_registration api resource_namespace)

-- What an informer tells its handlers.
pub data Notification : Type 0 where
  added : Object → Notification
  updated : Object → Object → Notification
  deleted : Object → Notification

-- What is documented of FilteringResourceEventHandler: an addition, an update or a deletion of objects
-- that pass the filter goes to the handler, an object that starts to pass is an addition and one that
-- stops to pass is a deletion.
pub record IsFiltering (dispatch : Registration → Notification → Outcome (List String))
    : Type 0 where
  pub added_in :
      (r : Registration) (o : Object) → r.filter_func o ≡ true → dispatch r (added o) ≡ r.on_add o
  pub added_out :
      (r : Registration) (o : Object) → r.filter_func o ≡ false → dispatch r (added o) ≡ returned []
  pub updated_in :
      (r : Registration) (o n : Object)
      → r.filter_func o ≡ true
      → r.filter_func n ≡ true
      → dispatch r (updated o n) ≡ r.on_update o n
  pub updated_enters :
      (r : Registration) (o n : Object)
      → r.filter_func o ≡ false
      → r.filter_func n ≡ true
      → dispatch r (updated o n) ≡ r.on_add n
  pub updated_leaves :
      (r : Registration) (o n : Object)
      → r.filter_func o ≡ true
      → r.filter_func n ≡ false
      → dispatch r (updated o n) ≡ r.on_delete o
  pub updated_out :
      (r : Registration) (o n : Object)
      → r.filter_func o ≡ false
      → r.filter_func n ≡ false
      → dispatch r (updated o n) ≡ returned []
  pub deleted_in :
      (r : Registration) (o : Object)
      → r.filter_func o ≡ true
      → dispatch r (deleted o) ≡ r.on_delete o
  pub deleted_out :
      (r : Registration) (o : Object)
      → r.filter_func o ≡ false
      → dispatch r (deleted o) ≡ returned []
