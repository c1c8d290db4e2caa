-- ===== src/Tests/Turns.antt =====
-- Turns of the four controllers on the resources of Tests/Data.antt.
use cert_broker.Base.{String, some, true, false, ◌≡◌, ◌≢◌, sym, ap, eq_iff}
use cert_broker.Kube.Memory.{memory-IsLawful, memory-IsFresh}
use cert_broker.Kube.Store.{Store}
use cert_broker.Broker.{Broker}
use cert_broker.Ingress.Sync.{sync as sync_ingress}
use cert_broker.Secret.Sync.{sync as sync_secret}
use cert_broker.Cleaner.Sync.{sync_handler}
use cert_broker.Turns.{Handlers, Turns, ingress_turn, secret_turn, cleaner_turn, none_yet, and_then}
use cert_broker.Base.{none, inl, refl, [], ◌∷◌, Any}
use cert_broker.Base.Exec.{returned}
use cert_broker.Base.Slice.{elements}
use cert_broker.Kube.{Ingress}
use cert_broker.Secret.Sync.{copy_of}
use cert_broker.Ingress.CopyTls.Effects.{quiet}
use cert_broker.Turns.Settled.{sync-settled-sync_handler}
use cert_broker.Turns.Order.{IsNew, names}
use cert_broker.Turns.Mirror.{Work, sync_all, copy_name, mirror_of}
use cert_broker.Turns.Mirror.Runs.{AllSucceed, sync_all-mirrors}
use cert_broker.Tests.Data.{template}
use cert_broker.Base.{Option, All, ◌⊎◌}
use cert_broker.Naming.Split.{dot_free}
use cert_broker.Kube.Store.{place}
use cert_broker.Tests.Data.{before}
use cert_broker.Turns.Certificate.{Requests, certificate-returned}
use cert_broker.Tests.Ingress.{handler, shop-IsManageable}
use cert_broker.Tests.Data.{shop, shop_tls, tls_secret}
use cert_broker.Tests.Data.{
  world-IsReliable, domains, domains-IsWellConfigured, setting, world, start,
}

abbrev pub handlers : Handlers
handlers = record {
  ingress = record {
    resource_namespace = "control";
    domain_to_dns_provider = domains;
    ingress_class = "cert-broker";
  };
  cleaner = record { update_ingresses = true; ingress_class = "cert-broker" };
  extensions_version = "extensions/v1beta1";
}

-- Between the turns nothing changes.
abbrev pub Idle : Store → Store → Type 0
Idle w w' = w ≡ w'

abbrev pub after : Broker Store
after =
    (sync_handler world handlers.cleaner "control/managed-cert.shop.web"
      (sync_secret world "control/managed-cert.shop.tls"
        (sync_ingress world handlers.ingress "shop/web" start).1).1).1

abbrev pub run : Turns world Idle handlers start after
run =
    and_then
      (and_then (and_then none_yet (ingress_turn "shop/web" start)) (
        secret_turn "control/managed-cert.shop.tls"
          (sync_ingress world handlers.ingress "shop/web" start).1))
      (cleaner_turn "control/managed-cert.shop.web" _)

certificate-returned_example :
    ((c : Ingress) × ((sync_ingress world handler "shop/web" start).1.world.control_ingresses
          "control" "managed-cert.shop.web"
        ≡ some c)
      × Any (Requests "shop" shop_tls) (elements c.tls))
    × ((sync_secret world "control/managed-cert.shop.tls" start).0 ≡ returned none)
    × ((sync_secret world "control/managed-cert.shop.tls" start).1.world.target_secrets "shop" "tls"
        ≡ some (copy_of tls_secret))
unfolding cert_broker.Naming.Split.dot_free cert_broker.Naming.create_name_for_control_cluster
    cert_broker.Naming.split_namespace cert_broker.Base.Text.cut
certificate-returned_example =
    certificate-returned world (memory-IsLawful setting) (memory-IsFresh setting) world-IsReliable
      handler domains-IsWellConfigured shop shop_tls (inl refl) refl "shop/web"
      "control/managed-cert.shop.tls" "control" start start tls_secret tt (shop ∷ []) refl
      (λ ns n i e. absurd (cc e)) refl refl shop-IsManageable refl refl refl refl refl (inl refl)

sync-settled-sync_handler_example :
    let once = (sync_ingress world handler "shop/web" start).1 in
    let key : String = "control/managed-cert.shop.web" in
    let twice = (sync_handler world handlers.cleaner key once).1 in
    ((sync_handler world handlers.cleaner key once).0 ≡ returned (true, none))
    × ((sync_ingress world handler "shop/web" twice).0 ≡ returned none)
    × (quiet (sync_ingress world handler "shop/web" twice).1.world ≡ quiet twice.world)
unfolding cert_broker.Naming.filter_on_ingress_labels cert_broker.Base.GoMap.lookup
    cert_broker.Naming.Split.dot_free cert_broker.Naming.create_name_for_control_cluster
sync-settled-sync_handler_example =
    sync-settled-sync_handler world (memory-IsLawful setting) (memory-IsFresh setting)
      world-IsReliable handler domains-IsWellConfigured handlers.cleaner refl shop shop-IsManageable
      refl refl "shop/web" "control/managed-cert.shop.web" start refl refl
      (λ ns n i e. absurd (cc e)) refl refl

-- A second Ingress with the TLS section of the first one.
abbrev twin : Ingress
twin = record shop { name = "api" }

abbrev pair_start : Broker Store
pair_start = record start {
  world = record before {
    target_ingresses = place before.target_ingresses "shop" "api" (some twin);
  };
}

shop-IsNew :
    IsNew world
      (memory-IsLawful setting)
      (memory-IsFresh setting)
      world-IsReliable
      handler
      domains-IsWellConfigured
      pair_start
      "shop/web"
      shop
unfolding dot_free
shop-IsNew = record {
  split = refl;
  found = refl;
  missing = refl;
  fits = shop-IsManageable;
  plain = refl;
}

twin-IsNew :
    IsNew world
      (memory-IsLawful setting)
      (memory-IsFresh setting)
      world-IsReliable
      handler
      domains-IsWellConfigured
      pair_start
      "shop/api"
      twin
unfolding dot_free
twin-IsNew = record {
  split = refl;
  found = refl;
  missing = refl;
  fits = record {
    whole = shop-IsManageable.whole;
    one_provider = shop-IsManageable.one_provider;
    some_entry = shop-IsManageable.some_entry;
  };
  plain = refl;
}

web-api : names shop ≢ names twin
web-api e =
    let same : shop.name ≡ twin.name = ap (λ (p : String × String). p.1) e in
    let equal : false ≡ true = (eq_iff shop.name twin.name).1 same in cc equal

-- The first sight of both.
abbrev both : Work
both = ("shop/web", shop) ∷ ("shop/api", twin) ∷ []

abbrev mirrors : String → String → Option Ingress
mirrors = (sync_all world handler both pair_start).world.control_ingresses

sync_all-mirrors_example :
    AllSucceed world
      (memory-IsLawful setting)
      (memory-IsFresh setting)
      world-IsReliable
      handler
      domains-IsWellConfigured
      pair_start
      both
    × All
        (λ (p : String × Ingress).
          mirrors "control" (copy_name p.1) ≡ some (mirror_of handler template p.1))
        both
    × ((ns name : String)
        → Any (λ (p : String × Ingress). (ns ≡ "control") × (name ≡ copy_name p.1)) both
          ⊎ (mirrors ns name ≡ none))
    × (quiet (sync_all world handler both pair_start).world
        ≡ record (quiet pair_start.world) { control_ingresses = mirrors })
unfolding cert_broker.Template.create_ingress_template
sync_all-mirrors_example =
    sync_all-mirrors world (memory-IsLawful setting) (memory-IsFresh setting) world-IsReliable
      handler domains-IsWellConfigured pair_start both (λ ns n i e. absurd (cc e))
      (shop-IsNew, (twin-IsNew, tt)) ((web-api, tt), (tt, tt))
