-- ===== src/Program/Cached.antt =====
-- cmd/controller-manager.go: the caches that the controllers wait for once they are made, and the event
-- handlers that are registered.
use cert_broker.Base.{String, Bool, false, none, ◌≡◌, sym, ap, ok, List, [], ◌∷◌, All}
use cert_broker.Base.Exec.{Outcome, returned}
use cert_broker.Kube.{Object, Secret}
use cert_broker.Kube.Api.{Api}
use cert_broker.Broker.{Broker}
use cert_broker.Options.{Options}
use cert_broker.Ingress.Sync.{sync as sync_ingress}
use cert_broker.Events.Sync.{sync as sync_event}
use cert_broker.Cleaner.Sync.{sync_handler}
use cert_broker.Informers.{
  Informer, target_ingresses, control_ingresses, control_secrets, control_events, AllSynced, cached,
  ingress_informer_syncs, event_informer_syncs, cleaner_informer_syncs, secret_informer_syncs,
}
use cert_broker.Informers.Synced.{syncs-cached}
use cert_broker.Informers.Unsynced.{sync-unsynced}
use cert_broker.Secret.Sync.{managed_labels, sync as sync_secret}
use cert_broker.Kube.Laws.{IsLawful}
use cert_broker.Informers.Registration.{
  Registration, Notification, IsFiltering, IsRegistered, of_ingress, of_secret, of_events,
  of_cleaner, ingress_registration, secret_registration, event_registration, cleaner_registration,
}
use cert_broker.Informers.Registration.Notified.{dispatch-returned}
use cert_broker.Controllers.Ingress as ingress
use cert_broker.Controllers.Secret as secret
use cert_broker.Controllers.Events as events
use cert_broker.Controllers.Cleaner as cleaner
use cert_broker.Program.{Libraries, Wiring, wire, run_e}
use cert_broker.Program.Wired.{wired}

module _ (lib : Libraries) (api : Api) (deep_equal : Object → Object → Bool)
    (ingress_class extensions_version : String) (is_not_exist : String → Bool) (o : Options)
    (w : Wiring lib)
    (started : run_e lib api deep_equal ingress_class extensions_version is_not_exist o
      ≡ ok w) where
  -- What is read of the wiring is what is read of its parts.
  read_of :
      {A : Type 0} (read : Wiring lib → A)
      → read w
        ≡ read (
            wire lib api deep_equal ingress_class extensions_version o w.control_config
              w.target_client w.control_client w.dynamic_client)
  read_of read =
      sym (
        ap read
          (wired lib api deep_equal ingress_class extensions_version is_not_exist o w started))

  ingress_syncs :
      ingress.get_informer_syncs lib.Client w.ingress_controller ≡ ingress_informer_syncs
  unfolding wire ingress.get_informer_syncs
  ingress_syncs = read_of (λ x. ingress.get_informer_syncs lib.Client x.ingress_controller)

  event_syncs : events.get_informer_syncs lib.Client w.event_controller ≡ event_informer_syncs
  unfolding wire events.get_informer_syncs
  event_syncs = read_of (λ x. events.get_informer_syncs lib.Client x.event_controller)

  cleaner_syncs : cleaner.awaited_syncs lib.Client w.ingress_cleaner ≡ cleaner_informer_syncs
  unfolding wire cleaner.awaited_syncs
  cleaner_syncs = read_of (λ x. cleaner.awaited_syncs lib.Client x.ingress_cleaner)

  secret_syncs : secret.get_informer_syncs lib.Client w.secret_controller ≡ secret_informer_syncs
  unfolding wire secret.get_informer_syncs
  secret_syncs = read_of (λ x. secret.get_informer_syncs lib.Client x.secret_controller)

  -- If the start succeeds, and the caches have synced for which a controller that it makes waits
  -- before its workers start, then Sync of the Ingress controller, Sync of the event controller and
  -- syncHandler of the cleaner do, with the handlers made, for any key and from any state, what
  -- they do with all caches synced, even if the other caches hold nothing yet.
  pub run_e-cached :
      (missing : api.Error) (at_ingress at_events at_cleaner : Informer → Bool) (key : String)
      (s : Broker api.World)
      → AllSynced at_ingress (ingress.get_informer_syncs lib.Client w.ingress_controller)
      → AllSynced at_events (events.get_informer_syncs lib.Client w.event_controller)
      → AllSynced at_cleaner (cleaner.awaited_syncs lib.Client w.ingress_cleaner)
      → (sync_ingress (cached api at_ingress missing) w.handlers.ingress key s
          ≡ sync_ingress api w.handlers.ingress key s)
        × (sync_event (cached api at_events missing) w.handlers.extensions_version key s
            ≡ sync_event api w.handlers.extensions_version key s)
        × (sync_handler (cached api at_cleaner missing) w.handlers.cleaner key s
            ≡ sync_handler api w.handlers.cleaner key s)
  run_e-cached missing at_ingress at_events at_cleaner key s i e c =
      syncs-cached api missing at_ingress at_events at_cleaner w.handlers.ingress
        w.handlers.extensions_version w.handlers.cleaner key s (rw ingress_syncs at i)
        (rw event_syncs at e) (rw cleaner_syncs at c)

  registered :
      w.registrations
      ≡ (target_ingresses, ingress_registration api)
        ∷ (control_ingresses, cleaner_registration api o.resource_namespace)
        ∷ (control_secrets, secret_registration api deep_equal o.resource_namespace)
        ∷ (control_events, event_registration api)
        ∷ []
  unfolding wire ingress.new_controller cleaner.new_controller secret.new_controller
      events.new_controller
  registered = read_of (λ x. x.registrations)

  -- If the start succeeds and the registered filter works as documented, then no notification about
  -- any objects makes an event handler panic that is registered on an informer.
  pub run_e-returned :
      (dispatch : Registration → Notification → Outcome (List String)) (n : Notification)
      → IsFiltering dispatch
      → All
          (λ (p : Informer × Registration). (keys : List String) × (dispatch p.1 n ≡ returned keys))
          w.registrations
  run_e-returned dispatch n filtering =
      let calm = λ (r : Registration) (of : IsRegistered api deep_equal o.resource_namespace r).
        dispatch-returned api dispatch filtering deep_equal o.resource_namespace r n of in
      rw registered
        (calm _ of_ingress, (calm _ of_cleaner, (calm _ of_secret, (calm _ of_events, tt))))

  -- If the start succeeds, the calls keep the laws, the caches have synced for which the secret
  -- controller that it makes waits, that of the Ingress resources of the target cluster has not and
  -- holds nothing yet, and Sync, of a key that splits into a namespace and a name, reads the secret
  -- and makes the selector, then Sync returns without an error and changes nothing, whichever
  -- Ingress resources the target cluster has.
  pub run_e-unsynced :
      (lawful : IsLawful api) (has_synced : Informer → Bool) (missing : api.Error)
      (key namespace name : String) (selector : api.Selector) (x : Secret) (s : Broker api.World)
      → AllSynced has_synced (secret.get_informer_syncs lib.Client w.secret_controller)
      → has_synced target_ingresses ≡ false
      → api.split_meta_namespace_key key ≡ ok (namespace, name)
      → (api.control_secret namespace name s.world).0 ≡ ok x
      → api.label_selector managed_labels ≡ ok selector
      → let run = sync_secret (cached api has_synced missing) key s in
        (run.0 ≡ returned none) × (lawful.view run.1.world ≡ lawful.view s.world)
  run_e-unsynced lawful has_synced missing key namespace name selector x s synced =
      sync-unsynced api lawful has_synced missing key namespace name selector x s
        (rw secret_syncs at synced)
