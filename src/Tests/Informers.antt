-- ===== src/Tests/Informers.antt =====
-- The registered handlers and the caches on the resources of Tests/Data.antt.
use cert_broker.Base.{
  String, Bool, true, false, ◌≡◌, refl, some, none, List, [], ◌∷◌, if◌then◌else◌, ok,
}
use cert_broker.Base.Exec.{Outcome, returned}
use cert_broker.Base.GoMap.{GoMap}
use cert_broker.Kube.{Ingress, Object, ingress, tombstone}
use cert_broker.Kube.Memory.{memory-IsLawful, memory-IsFresh}
use cert_broker.Kube.Annotated.{Annotated-place}
use cert_broker.Kube.Store.{Store, place}
use cert_broker.Broker.{Broker}
use cert_broker.Naming.{filter_on_ingress_labels}
use cert_broker.Ingress.CopyTls.Effects.{quiet}
use cert_broker.Ingress.Sync.{sync}
use cert_broker.Ingress.Sync.Effects.{created, selected}
use cert_broker.Ingress.Sync.Refinement.{cleaned}
use cert_broker.Informers.{Informer, target_ingresses}
use cert_broker.Informers.Registration.{
  Registration, Notification, added, updated, deleted, IsFiltering, ingress_registration,
  of_ingress,
}
use cert_broker.Informers.Registration.Notified.{dispatch-tombstone}
use cert_broker.Informers.Registration.Lifecycle.{deleted-sync, unlabelled-sync}
use cert_broker.Tests.Turns.{handlers}
use cert_broker.Tests.Data.{
  world-IsReliable, domains-IsWellConfigured, setting, world, start, before, shop, template,
  empty_table, orphaned, orphaned_start, old_copy,
}

-- FilteringResourceEventHandler as its documentation says.
abbrev filtered : Bool → Bool → Registration → Object → Object → Outcome (List String)
filtered true true r o n = r.on_update o n
filtered true false r o n = r.on_delete o
filtered false true r o n = r.on_add n
filtered false false r o n = returned []

abbrev pub filtering : Registration → Notification → Outcome (List String)
filtering r (added o) = if r.filter_func o then r.on_add o else returned []
filtering r (updated o n) = filtered (r.filter_func o) (r.filter_func n) r o n
filtering r (deleted o) = if r.filter_func o then r.on_delete o else returned []

pub filtering-IsFiltering : IsFiltering filtering
filtering-IsFiltering = record {
  added_in = λ r o e. rw e refl;
  added_out = λ r o e. rw e refl;
  updated_in = λ r o n e f. rw (e, f) refl;
  updated_enters = λ r o n e f. rw (e, f) refl;
  updated_leaves = λ r o n e f. rw (e, f) refl;
  updated_out = λ r o n e f. rw (e, f) refl;
  deleted_in = λ r o e. rw e refl;
  deleted_out = λ r o e. rw e refl;
}

abbrev never_equal : Object → Object → Bool
never_equal o n = false

dispatch-tombstone_example :
    filtering (ingress_registration world) (deleted (tombstone "shop/web")) ≡ returned []
dispatch-tombstone_example =
    dispatch-tombstone world filtering filtering-IsFiltering never_equal "control"
      (ingress_registration world) "shop/web" of_ingress

deleted-sync_example :
    (filtering (ingress_registration world) (deleted (ingress shop)) ≡ returned ("shop/web" ∷ []))
    × ((sync world handlers.ingress "shop/web" orphaned_start).0 ≡ returned none)
    × (quiet (sync world handlers.ingress "shop/web" orphaned_start).1.world
        ≡ cleaned (some old_copy) orphaned)
unfolding filter_on_ingress_labels cert_broker.Base.GoMap.lookup
    cert_broker.Naming.create_name_for_control_cluster
deleted-sync_example =
    deleted-sync world (memory-IsLawful setting) (memory-IsFresh setting) world-IsReliable
      handlers.ingress domains-IsWellConfigured filtering filtering-IsFiltering shop "shop/web" refl
      refl refl orphaned_start
      (Annotated-place empty_table "control" "managed-cert.shop.web" old_copy (λ h. cc h)
        (λ ns n i e. absurd (cc e)))
      refl

-- The Ingress after its label was removed.
abbrev plain : Ingress
plain = record shop { labels = GoMap.nil }

abbrev plain_start : Broker Store
plain_start = record start {
  world = record before { target_ingresses = place empty_table "shop" "web" (some plain) };
}

unlabelled-sync_example :
    (filtering (ingress_registration world) (updated (ingress shop) (ingress plain))
      ≡ returned ("shop/web" ∷ []))
    × ((sync world handlers.ingress "shop/web" plain_start).0 ≡ returned none)
    × (quiet (sync world handlers.ingress "shop/web" plain_start).1.world
        ≡ (created handlers.ingress template "managed-cert.shop.web" plain
            (selected handlers.ingress plain)
            plain_start.world).0)
unfolding filter_on_ingress_labels cert_broker.Base.GoMap.lookup
    cert_broker.Naming.create_name_for_control_cluster
unlabelled-sync_example =
    unlabelled-sync world (memory-IsLawful setting) (memory-IsFresh setting) world-IsReliable
      handlers.ingress domains-IsWellConfigured filtering filtering-IsFiltering shop "shop/web" refl
      refl refl plain_start (λ ns n i e. absurd (cc e)) plain refl refl refl

-- All caches but that of the Ingress resources of the target cluster.
abbrev pub others : Informer → Bool
others target_ingresses = false
others _ = true

abbrev pub everything : Informer → Bool
everything i = true
