-- ===== src/Tests/Events.antt =====
-- The event controller on the resources of Tests/Data.antt, and the numbers of its annotation.
use cert_broker.Base.{
  String, Option, false, ap, ◌≡◌, refl, arith, some, none, [], ◌∷◌, ◌||◌, if◌then◌else◌,
}
use cert_broker.Base.Exec.{returned, Outcome}
use cert_broker.Base.GoMap.{GoMap}
use cert_broker.Base.Int.{pos, negsuc}
use cert_broker.Base.Decimal.{itoa, parse_int_32}
use cert_broker.Kube.{Event, event, OwnerReference, Certificate}
use cert_broker.Kube.Memory.{memory, memory-IsLawful, memory-IsFresh, memory-IsVersioned, Setting}
use cert_broker.Kube.Updates.{Fault, outdated}
use cert_broker.Kube.Store.{Store, place}
use cert_broker.Broker.{Broker}
use cert_broker.Events.Handlers.{on_add, on_update}
use cert_broker.Events.Sync.{counted, sync}
use cert_broker.Events.Laws.{parse_int_32-itoa, on_add-counted}
use cert_broker.Events.Sync.Effects.{visited, Ends}
use cert_broker.Events.Sync.Totality.{sync-visits}
use cert_broker.Tests.Data.{memory-IsReliable, shop, setting, world, start, renewal, owner, before}

-- The cases of OnAdd in pkg/events/eventhandler_test.go: no annotations, a lower count and an equal
-- count.
abbrev noted : Event
noted = record renewal { annotations = GoMap.made (("garden.sapcloud.io/count", "1") ∷ []) }

on_add_new : on_add world (event renewal) ≡ returned ("control/renewal" ∷ [])
unfolding on_add cert_broker.Base.GoMap.lookup
on_add_new = refl

on_add_equal : on_add world (event (record noted { count = pos 1 })) ≡ returned []
unfolding on_add cert_broker.Base.GoMap.lookup
on_add_equal = refl

on_add_newer : on_add world (event noted) ≡ returned ("control/renewal" ∷ [])
unfolding on_add cert_broker.Base.GoMap.lookup
on_add_newer = refl

on_update_equal : on_update world (event renewal) (event noted) ≡ returned []
unfolding on_update
on_update_equal = refl

itoa_read_back : parse_int_32 (itoa (negsuc 41)) ≡ some (negsuc 41)
itoa_read_back = parse_int_32-itoa (negsuc 41) (omega arith)

on_add-counted_example : on_add world (event (counted noted)) ≡ returned []
on_add-counted_example = on_add-counted world noted (omega arith)

-- A certificate with two Ingress owners, both there.
abbrev other_owner : OwnerReference
other_owner = record owner { name = "managed-cert.shop.api" }

abbrev both_setting : Setting
both_setting = record setting { certificate = Certificate.unstructured (owner ∷ other_owner ∷ []) }

abbrev both_start : Broker Store
both_start = record start {
  world = record before {
    target_ingresses =
        place before.target_ingresses "shop" "api" (some (record shop { name = "api" }));
  };
}

abbrev after : Outcome (Option Fault) × Broker Store
after = sync (memory both_setting) "extensions/v1beta1" "control/renewal" both_start

sync-visits_example :
    (version : String) × (let (st, refused) =
        visited "control" renewal "extensions/v1beta1" version false
          (owner ∷ other_owner ∷ [])
          both_start.world in
      (after.1.world ≡ st) × Ends (memory both_setting) refused after.0)
unfolding counted
sync-visits_example =
    sync-visits (memory both_setting) (memory-IsLawful both_setting) (memory-IsFresh both_setting)
      (memory-IsReliable both_setting) (memory-IsVersioned both_setting) "extensions/v1beta1"
      "control/renewal" "control" "renewal" both_start renewal (owner ∷ other_owner ∷ []) refl refl
      refl refl refl (λ e. absurd (cc (ap (λ (x : Event). x.annotations) e)))

-- The update for the second owner is refused.
after_refused : after.0 ≡ returned (some outdated)
unfolding sync cert_broker.Events.Sync.sync_names cert_broker.Events.Sync.sync_event
    cert_broker.Events.Sync.visit_owners cert_broker.Events.Sync.replicate_event
    cert_broker.Naming.split_namespace cert_broker.Base.Text.cut counted
after_refused = refl
