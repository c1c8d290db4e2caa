-- ===== src/Informers/Synced/Cleaner.antt =====
-- syncHandler of pkg/cleaner/controller.go through caches.
use cert_broker.Base.{String, Bool, true, ◌≡◌, arith, inl, inr}
use cert_broker.Base.{Result-cases}
use cert_broker.Kube.{Ingress}
use cert_broker.Kube.Api.{Api}
use cert_broker.Broker.{Broker}
use cert_broker.Naming.{split_namespace}
use cert_broker.Cleaner.Sync.{
  Controller, update_annotations, check_target, sync_control, sync_handler,
}
use cert_broker.Informers.{Informer, cached, target_ingresses, control_ingresses}
use cert_broker.Informers.Synced.Cleanup.{clean_up-cached}

module _ (api : Api) (has_synced : Informer → Bool) (missing : api.Error) where
  abbrev through : Api
  through = cached api has_synced missing

  module _ (c : Controller) (target : has_synced target_ingresses ≡ true) where
    sync_control-cached :
        (namespace : String) (control_ing : Ingress) (target_names : String × String)
        (s : Broker api.World)
        → sync_control through c namespace control_ing target_names s
          ≡ sync_control api c namespace control_ing target_names s
    unfolding sync_control check_target update_annotations
    sync_control-cached namespace control_ing (target_namespace, target_name) s =
        let t = api.target_ingress target_namespace target_name s.world in
        let s' : Broker api.World = record s { world = t.1 } in
        let d = clean_up-cached api has_synced missing control_ing s' in
        elim (Result-cases t.0) [
          | inr (f, e) ↦ ground (arith, target, e, d)
          | inl (i, e) ↦ ground (arith, target, e, d)
        ]

    pub sync_handler-cached :
        has_synced control_ingresses ≡ true
        → (key : String) (s : Broker api.World)
        → sync_handler through c key s ≡ sync_handler api c key s
    unfolding sync_handler cert_broker.Cleaner.Sync.sync_names
    sync_handler-cached control key s = elim (Result-cases (api.split_meta_namespace_key key)) [
      | inr (f, k) ↦ ground (arith, k)
      | inl ((namespace, name), k) ↦
          let read = api.control_ingress namespace name s.world in
          elim (Result-cases read.0) [
            | inr (f, e) ↦ ground (arith, k, control, e)
            | inl (i, e) ↦ ground (
              arith,
              k,
              control,
              e,
              sync_control-cached namespace i (split_namespace name) (record s { world = read.1 }),
            )
          ]
    ]
