-- ===== src/Tests/Ingress.antt =====
-- The Ingress controller on the resources of Tests/Data.antt.
use cert_broker.Base.{String, ◌≡◌, refl, some, none, [], ◌∷◌, true, false, if◌then◌else◌, inl, inr}
use cert_broker.Base.Exec.{returned, panicked}
use cert_broker.Base.Slice.{elements}
use cert_broker.Kube.Memory.{memory-IsLawful, memory-IsFresh}
use cert_broker.Naming.{create_name_for_control_cluster}
use cert_broker.Cleanup.{clean_up_ingress_and_tls_secrets}
use cert_broker.Cleanup.Laws.{clean_up_ingress_and_tls_secrets-absent}
use cert_broker.Ingress.CopyTls.{copy_tls}
use cert_broker.Ingress.CopyTls.Selection.{selection}
use cert_broker.Ingress.CopyTls.Order.{provider_of, copy_tls-selection}
use cert_broker.Ingress.CopyTls.Effects.{quiet}
use cert_broker.Ingress.Prefix.{deep_equal}
use cert_broker.Ingress.Sync.{Handler, update_ingress}
use cert_broker.Ingress.Sync.Effects.{update_ingress-panicked}
use cert_broker.Ingress.Sync.Refinement.{synced}
use cert_broker.Ingress.Sync.Outdated.{sync-outdated}
use cert_broker.Base.Slice.{Slice}
use cert_broker.Kube.{Ingress}
use cert_broker.Kube.Store.{Store, place}
use cert_broker.Broker.{Broker}
use cert_broker.Template.{create_control_ingress}
use cert_broker.Ingress.Sync.Settled.{IsManageable, sync-settled}
use cert_broker.Ingress.Sync.Totality.{sync-total}
use cert_broker.Base.{err}
use cert_broker.Naming.{create_name_for_control_cluster}
use cert_broker.Ingress.Sync.{sync}
use cert_broker.Base.{Option, arith}
use cert_broker.Tests.Data.{
  world-IsReliable, domains, domains-IsWellConfigured, setting, world, start, orphaned_start, shop,
  stray, old_copy, bare_copy, template, before,
}

abbrev pub handler : Handler
handler = record {
  resource_namespace = "control";
  domain_to_dns_provider = domains;
  ingress_class = "cert-broker";
}

sync-total_example :
    ((sync world handler "shop/web" start).0 ≡ returned none)
    × (quiet (sync world handler "shop/web" start).1.world
        ≡ synced handler template
            (create_name_for_control_cluster "shop" "web")
            (some shop)
            none
            before)
sync-total_example =
    sync-total world (memory-IsLawful setting) (memory-IsFresh setting) world-IsReliable handler
      domains-IsWellConfigured "shop/web" "shop" "web" start refl (λ name c h. absurd (cc h))

copy_tls-selection_example :
    ((copy_tls world domains stray start).0
      ≡ returned (selection (provider_of domains) (elements stray.tls)))
    × ((copy_tls world domains stray start).1.template ≡ template)
copy_tls-selection_example = copy_tls-selection world domains domains-IsWellConfigured stray start

update_ingress-panicked_example : (update_ingress world handler shop bare_copy start).0 ≡ panicked
unfolding deep_equal
update_ingress-panicked_example =
    update_ingress-panicked world handler domains-IsWellConfigured shop bare_copy start refl refl

-- The Ingress with a host that is not managed, and the copy that Sync makes of it.
abbrev stray_start : Broker Store
stray_start = record start {
  world = record before {
    target_ingresses = place before.target_ingresses "shop" "web" (some stray);
  };
}

abbrev stray_copy : Ingress
stray_copy =
    (create_control_ingress "cert-broker" template "managed-cert.shop.web" "control" "gcp" (
      Slice.made
        (record { hosts = Slice.made ("a.x" ∷ []); secret_name = "managed-cert.shop.tls" } ∷ []))).1

stray_synced :
    (sync world handler "shop/web" stray_start).1.world.control_ingresses "control"
      "managed-cert.shop.web"
    ≡ some stray_copy
unfolding sync cert_broker.Ingress.Sync.sync_names cert_broker.Ingress.Sync.sync_existing
    cert_broker.Ingress.Sync.create_ingress copy_tls cert_broker.Ingress.CopyTls.copy_entries
    cert_broker.Ingress.CopyTls.copy_hosts cert_broker.Ingress.CopyTls.scan_domains
    cert_broker.Base.Text.has_suffix cert_broker.Ingress.Sync.fill_template create_control_ingress
    create_name_for_control_cluster cert_broker.Ingress.Prefix.prefix_with_namespace
stray_synced = refl

sync-outdated_example : deep_equal stray.tls stray_copy.tls "shop" ≡ false
unfolding cert_broker.Ingress.CopyTls.Selection.find_provider cert_broker.Base.Text.has_suffix
    create_name_for_control_cluster
sync-outdated_example =
    sync-outdated world (memory-IsLawful setting) (memory-IsFresh setting) world-IsReliable handler
      domains-IsWellConfigured "shop/web" "shop" "web" stray stray_copy stray_start refl
      (λ name c h. absurd (cc h)) refl refl (inl (inr (inl refl))) stray_synced

clean_up_ingress_and_tls_secrets-absent_example :
    let t = (clean_up_ingress_and_tls_secrets world old_copy orphaned_start).1.world in
    (t.control_ingresses "control" "managed-cert.shop.web" ≡ none)
    × ((t.control_secrets "control" "managed-cert.shop.tls" ≡ none) × Unit {0})
unfolding clean_up_ingress_and_tls_secrets cert_broker.Cleanup.delete_tls_secrets
clean_up_ingress_and_tls_secrets-absent_example =
    clean_up_ingress_and_tls_secrets-absent world (memory-IsLawful setting) old_copy orphaned_start
      refl

pub shop-IsManageable : IsManageable handler shop
unfolding cert_broker.Ingress.CopyTls.Selection.find_provider cert_broker.Base.Text.has_suffix
    cert_broker.Ingress.CopyTls.Selection.entry_providers
    cert_broker.Ingress.CopyTls.Selection.uniform
shop-IsManageable = record {
  whole = ((refl, (λ e. absurd (cc e)), ((λ e. absurd (cc e)), tt)), tt);
  one_provider = refl;
  some_entry = λ e. absurd (cc e);
}

sync-settled_example :
    let s = (sync world handler "shop/web" start).1 in
    ((sync world handler "shop/web" s).0 ≡ returned none)
    × (quiet (sync world handler "shop/web" s).1.world ≡ quiet s.world)
sync-settled_example =
    sync-settled world (memory-IsLawful setting) (memory-IsFresh setting) world-IsReliable handler
      domains-IsWellConfigured "shop/web" "shop" "web" shop start refl (λ name c h. absurd (cc h))
      refl refl shop-IsManageable
