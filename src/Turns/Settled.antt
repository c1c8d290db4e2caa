-- ===== src/Turns/Settled.antt =====
-- A check of the cleaner between two runs of the Ingress controller.
use cert_broker.Base.{String, true, ◌≡◌, ◌∙◌, ap, none, some, ok}
use cert_broker.Base.Exec.{returned}
use cert_broker.Base.GoMap.{Pairs}
use cert_broker.Kube.{Ingress, ingress}
use cert_broker.Kube.Api.{Api}
use cert_broker.Kube.Annotated.{AllAnnotated}
use cert_broker.Kube.Store.{Store, place_self, put_control_ingress}
use cert_broker.Kube.Laws.{IsLawful, IsFresh}
use cert_broker.Kube.Reliable.{IsReliable}
use cert_broker.Broker.{Broker}
use cert_broker.Naming.{create_name_for_control_cluster, filter_on_ingress_labels}
use cert_broker.Naming.Split.{dot_free, split_namespace-create_name_for_control_cluster}
use cert_broker.Template.{create_control_ingress}
use cert_broker.Ingress.CopyTls.Effects.{quiet}
use cert_broker.Ingress.CopyTls.Order.{IsWellConfigured}
use cert_broker.Ingress.Sync.{Handler, sync}
use cert_broker.Ingress.Sync.Annotated.{IsSafe-sync}
use cert_broker.Ingress.Sync.Convergence.{copy_up_to_date}
use cert_broker.Ingress.Sync.Settled.{IsManageable, copy, sync-copied}
use cert_broker.Ingress.Sync.Totality.{sync-total}
use cert_broker.Cleaner.Sync.{Controller, sync_handler}
use cert_broker.Cleaner.Sync.Annotated.{IsSafe-sync_handler}
use cert_broker.Cleaner.Sync.Annotations.{ranged}
use cert_broker.Cleaner.Sync.Refresh.{refreshed, sync_handler-refreshes}

module _ (api : Api) (lawful : IsLawful api) (fresh : IsFresh api lawful)
    (reliable : IsReliable api) (h : Handler) (fit : IsWellConfigured api h.domain_to_dns_provider)
    (c : Controller) (updates : c.update_ingresses ≡ true) (i : Ingress) (fits : IsManageable h i)
    (managed : filter_on_ingress_labels (ingress i) ≡ true) (plain : dot_free i.namespace ≡ true)
    (key copy_key : String) where
  open lawful use {view}

  abbrev cn : String
  cn = create_name_for_control_cluster i.namespace i.name

  -- After a run of Sync and a check of the copy.
  abbrev once : Broker api.World → Broker api.World
  once s = (sync api h key s).1

  abbrev twice : Broker api.World → Broker api.World
  twice s = (sync_handler api c copy_key (once s)).1

  module _ (s : Broker api.World)
      (split : api.split_meta_namespace_key key ≡ ok (i.namespace, i.name))
      (copy_split : api.split_meta_namespace_key copy_key ≡ ok (h.resource_namespace, cn))
      (all : AllAnnotated lawful s)
      (found : (view s.world).target_ingresses i.namespace i.name ≡ some i)
      (missing : (view s.world).control_ingresses h.resource_namespace cn ≡ none) where
    abbrev made : Ingress
    made = copy h s.template cn i fits

    all_once : AllAnnotated lawful (once s)
    all_once = (IsSafe-sync api lawful fresh reliable h key s all).2

    all_twice : AllAnnotated lawful (twice s)
    all_twice = (IsSafe-sync_handler api lawful fresh reliable c copy_key (once s) all_once).2

    first :
        quiet (view (once s).world)
        ≡ put_control_ingress h.resource_namespace cn (some made) (quiet (view s.world))
    first =
        sync-copied api lawful fresh reliable h fit key i.namespace i.name i s split
          (all h.resource_namespace) found missing fits

    at : (view (once s).world).control_ingresses h.resource_namespace cn ≡ some made
    at =
        ap (λ (x : Store). x.control_ingresses h.resource_namespace cn) first
        ∙ place_self (view s.world).control_ingresses h.resource_namespace cn (some made)

    still : (view (once s).world).target_ingresses i.namespace i.name ≡ some i
    still = ap (λ (x : Store). x.target_ingresses i.namespace i.name) first ∙ found

    checked :
        ((sync_handler api c copy_key (once s)).0 ≡ returned (true, none))
        × (entries : Pairs) × (view (twice s).world
            ≡ put_control_ingress h.resource_namespace cn
                (some (refreshed entries made))
                (view (once s).world))
    unfolding create_control_ingress
    checked =
        let l =
          sync_handler-refreshes api lawful fresh reliable c updates copy_key h.resource_namespace
            cn (once s) copy_split (all_once h.resource_namespace cn) in
        let back = split_namespace-create_name_for_control_cluster i.namespace i.name plain in
        let read =
          (api.target_ingress i.namespace i.name
            (api.control_ingress h.resource_namespace cn (once s).world).1).1 in
        let (asked, stored) = rw (back, at, still, managed) at l in
        (asked, ranged api c (record (once s) { world = read }), stored)

    -- If the calls keep the laws, the caches are fresh, the clusters fail for what is missing or
    -- there already alone, the domains are well configured, the cleaner updates annotations, no
    -- copy has nil annotations, a labelled Ingress without a copy stands in the target cluster, in
    -- a namespace without a dot, every TLS entry of it has hosts, all managed by one provider, and
    -- the keys split into their names, then after one Sync of the Ingress the check of the copy by
    -- the cleaner returns without an error and asks for another one, and a second Sync then returns
    -- without an error and changes nothing, events aside.
    pub sync-settled-sync_handler :
        ((sync_handler api c copy_key (once s)).0 ≡ returned (true, none))
        × ((sync api h key (twice s)).0 ≡ returned none)
        × (quiet (view (sync api h key (twice s)).1.world) ≡ quiet (view (twice s).world))
    sync-settled-sync_handler =
        let (asked, entries, stored) = checked in
        let (done, e) =
          sync-total api lawful fresh reliable h fit key i.namespace i.name (twice s) split
            (all_twice h.resource_namespace) in
        let there : (view (twice s).world).target_ingresses i.namespace i.name ≡ some i =
          ap (λ (x : Store). x.target_ingresses i.namespace i.name) stored ∙ still in
        let renewed =
          ap (λ (x : Store). x.control_ingresses h.resource_namespace cn) stored
          ∙ place_self (view (once s).world).control_ingresses h.resource_namespace cn
              (some (refreshed entries made)) in
        let same = copy_up_to_date h s.template cn i fits.whole fits.one_provider fits.some_entry in
        (asked, done, rw (there, renewed, same) at e)
