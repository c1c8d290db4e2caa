-- ===== src/Informers/Registration/Lifecycle.antt =====
-- From a notification about an Ingress of the target cluster to the copy in the control cluster.
use cert_broker.Base.{String, true, false, List, [], ◌∷◌, ok, ◌≡◌, none, some}
use cert_broker.Base.Exec.{Outcome, returned}
use cert_broker.Kube.{Ingress, ingress}
use cert_broker.Kube.Annotated.{AllAnnotated}
use cert_broker.Kube.Api.{Api}
use cert_broker.Kube.Laws.{IsLawful, IsFresh}
use cert_broker.Kube.Reliable.{IsReliable}
use cert_broker.Kube.Store.{Store}
use cert_broker.Broker.{Broker}
use cert_broker.Naming.{create_name_for_control_cluster, filter_on_ingress_labels}
use cert_broker.Ingress.Handlers as handlers
use cert_broker.Ingress.CopyTls.Effects.{quiet}
use cert_broker.Ingress.CopyTls.Order.{IsWellConfigured}
use cert_broker.Ingress.Sync.{Handler, sync}
use cert_broker.Ingress.Sync.Effects.{created, selected}
use cert_broker.Ingress.Sync.Refinement.{cleaned}
use cert_broker.Ingress.Sync.Totality.{sync-total}
use cert_broker.Informers.Registration.{
  Registration, Notification, updated, deleted, IsFiltering, ingress_registration,
}

module _ (api : Api) (lawful : IsLawful api) (fresh : IsFresh api lawful)
    (reliable : IsReliable api) (h : Handler) (fit : IsWellConfigured api h.domain_to_dns_provider)
    (dispatch : Registration → Notification → Outcome (List String))
    (filtering : IsFiltering dispatch) (i : Ingress) (key : String)
    (deletion : api.deletion_meta_namespace_key (ingress i) ≡ ok key)
    (split : api.split_meta_namespace_key key ≡ ok (i.namespace, i.name))
    (managed : filter_on_ingress_labels (ingress i) ≡ true) (s : Broker api.World)
    (all : AllAnnotated lawful s) where
  abbrev name : String
  name = create_name_for_control_cluster i.namespace i.name

  -- The tables before Sync, and what it returns and leaves of them.
  abbrev st : Store
  st = quiet (lawful.view s.world)

  -- If the calls keep the laws, the caches are fresh, the clusters fail for what is missing or
  -- there already alone, the domains are well configured, the registered filter works as
  -- documented, no copy has nil annotations, and the key of a labelled Ingress is made for a
  -- deletion and splits into its namespace and name, then its deletion queues that key, and if it
  -- is gone from the target cluster, Sync of the key returns without an error and removes its copy
  -- with its secrets, events aside, and nothing else.
  pub deleted-sync :
      st.target_ingresses i.namespace i.name ≡ none
      → (dispatch (ingress_registration api) (deleted (ingress i)) ≡ returned (key ∷ []))
        × ((sync api h key s).0 ≡ returned none)
        × (quiet (lawful.view (sync api h key s).1.world)
            ≡ cleaned (st.control_ingresses h.resource_namespace name) st)
  unfolding ingress_registration handlers.on_delete
  deleted-sync gone =
      let q = filtering.deleted_in (ingress_registration api) (ingress i) managed in
      let (r, e) =
        sync-total api lawful fresh reliable h fit key i.namespace i.name s split
          (all h.resource_namespace) in
      (rw deletion at q, r, rw gone at e)

  -- Under the conditions of deleted-sync, an update that takes the label of an Ingress away queues
  -- its key, and if the Ingress has no copy then Sync of the key, without an error, creates one as
  -- for a labelled Ingress, events aside, and changes nothing else.
  pub unlabelled-sync :
      (j : Ingress)
      → filter_on_ingress_labels (ingress j) ≡ false
      → st.target_ingresses i.namespace i.name ≡ some j
      → st.control_ingresses h.resource_namespace name ≡ none
      → (dispatch (ingress_registration api) (updated (ingress i) (ingress j))
          ≡ returned (key ∷ []))
        × ((sync api h key s).0 ≡ returned none)
        × (quiet (lawful.view (sync api h key s).1.world)
            ≡ (created h s.template name j (selected h j) st).0)
  unfolding ingress_registration handlers.on_delete
  unlabelled-sync j unmanaged there absent =
      let q =
        filtering.updated_leaves (ingress_registration api) (ingress i) (ingress j) managed
          unmanaged in
      let (r, e) =
        sync-total api lawful fresh reliable h fit key i.namespace i.name s split
          (all h.resource_namespace) in
      (rw deletion at q, r, rw (there, absent) at e)
