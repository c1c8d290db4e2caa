-- ===== src/Tests/Cleaner.antt =====
-- The cleaner on the resources of Tests/Data.antt.
use cert_broker.Base.{String, ◌≡◌, refl, some, none, [], ◌∷◌, true, false}
use cert_broker.Base.Exec.{panicked}
use cert_broker.Base.GoMap.{find, lookup, pairs}
use cert_broker.Kube.{Ingress}
use cert_broker.Kube.Memory.{memory-IsLawful, memory-IsFresh}
use cert_broker.Template.{annotation_pairs}
use cert_broker.Template.Laws.{annotation_pairs-NodupKeys}
use cert_broker.Ingress.Sync.{create_ingress}
use cert_broker.Cleaner.Sync.{Controller, sync_names, sync_handler, update_annotations}
use cert_broker.Cleaner.Sync.Annotations.{update_annotations-panicked}
use cert_broker.Cleaner.Sync.Provider.{update_annotations-after-create_ingress}
use cert_broker.Cleaner.Sync.Sweep.{rechecked, swept}
use cert_broker.Ingress.Sync.{Handler}
use cert_broker.Base.Exec.{returned}
use cert_broker.Cleaner.Sync.Refresh.{kept, entries_at, sync_handler-refreshes}
use cert_broker.Kube.Store.{Store, place}
use cert_broker.Broker.{Broker}
use cert_broker.Tests.Data.{before, empty_table}
use cert_broker.Cleaner.Sync.Totality.{sync_handler-total}
use cert_broker.Tests.Data.{
  world-IsReliable, domains, domains-IsWellConfigured, setting, world, start, orphaned_start, shop,
  shop_tls, old_copy, bare_copy, template, orphaned,
}

abbrev cleaner : Controller
cleaner = record { update_ingresses = false; ingress_class = "cert-broker" }

abbrev updater : Controller
updater = record { update_ingresses = true; ingress_class = "cert-broker" }

abbrev handler : Handler
handler = record {
  resource_namespace = "control";
  domain_to_dns_provider = domains;
  ingress_class = "cert-broker";
}

update_annotations-panicked_example :
    (update_annotations world updater "control" bare_copy start).0 ≡ panicked
update_annotations-panicked_example =
    update_annotations-panicked world updater "control" bare_copy start
      (record { nodup = annotation_pairs-NodupKeys "cert-broker" template; same = λ k. refl }) refl

-- The provider of `old_copy` was another one.
update_annotations-after-create_ingress_example :
    let s = (create_ingress world handler "managed-cert.shop.other" shop start).1 in
    (ing : Ingress) × ((update_annotations world updater "control" old_copy
          s).1.world.control_ingresses
        "control" "managed-cert.shop.web"
      ≡ some ing)
    × (find ing.annotations "certmanager.k8s.io/acme-dns01-provider" ≡ some "gcp")
unfolding cert_broker.Ingress.CopyTls.Selection.selection
    cert_broker.Ingress.CopyTls.Selection.find_provider cert_broker.Base.Text.has_suffix
    create_ingress cert_broker.Ingress.CopyTls.copy_tls cert_broker.Ingress.CopyTls.copy_entries
    cert_broker.Ingress.CopyTls.copy_hosts cert_broker.Ingress.CopyTls.scan_domains
    cert_broker.Ingress.Sync.fill_template cert_broker.Template.create_control_ingress
    update_annotations cert_broker.Cleaner.Sync.override annotation_pairs
update_annotations-after-create_ingress_example =
    update_annotations-after-create_ingress world (memory-IsLawful setting) handler
      domains-IsWellConfigured "managed-cert.shop.other" shop start shop_tls [] updater "control"
      old_copy (pairs old_copy.annotations) refl refl refl
      (record {
        nodup =
            annotation_pairs-NodupKeys "cert-broker" (record template { dns01_provider = "gcp" });
        same = λ k. refl;
      })
      refl refl

sync_handler-total_example :
    ((sync_handler world cleaner "control/managed-cert.shop.web" orphaned_start).0
      ≡ returned (rechecked (some old_copy) none, none))
    × ((sync_handler world cleaner "control/managed-cert.shop.web" orphaned_start).1.world
        ≡ swept (some old_copy) none orphaned)
sync_handler-total_example =
    sync_handler-total world world-IsReliable cleaner refl (memory-IsLawful setting)
      (memory-IsFresh setting) "control/managed-cert.shop.web" "control" "managed-cert.shop.web"
      orphaned_start refl

abbrev outdated : Store
outdated = record before {
  control_ingresses = place empty_table "control" "managed-cert.shop.web" (some old_copy);
}

abbrev outdated_start : Broker Store
outdated_start = record start { world = outdated }

sync_handler-refreshes_example :
    ((sync_handler world updater "control/managed-cert.shop.web" outdated_start).0
      ≡ returned (rechecked (some old_copy) (some shop), none))
    × ((sync_handler world updater "control/managed-cert.shop.web" outdated_start).1.world
        ≡ kept
            (entries_at world updater outdated_start "control" "managed-cert.shop.web")
            "control"
            (some old_copy)
            (some shop)
            outdated)
unfolding cert_broker.Naming.filter_on_ingress_labels cert_broker.Naming.split_namespace lookup
    cert_broker.Base.Text.cut
sync_handler-refreshes_example =
    sync_handler-refreshes world (memory-IsLawful setting) (memory-IsFresh setting) world-IsReliable
      updater refl "control/managed-cert.shop.web" "control" "managed-cert.shop.web" outdated_start
      refl (λ i e h. absurd (cc (e, h)))
