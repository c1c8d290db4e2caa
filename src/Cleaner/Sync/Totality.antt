-- ===== src/Cleaner/Sync/Totality.antt =====
-- pkg/cleaner/controller.go: syncHandler where the clusters answer every call.
use cert_broker.Base.{String, true, false, ◌≡◌, ap, ◌∙◌, arith, none, inl, inr, ok}
use cert_broker.Base.{Bool, Bool-cases, Result-cases}
use cert_broker.Base.Exec.{returned}
use cert_broker.Kube.{Ingress, ingress}
use cert_broker.Kube.Api.{Api}
use cert_broker.Kube.Laws.{IsLawful, IsFresh}
use cert_broker.Kube.Reliable.{IsReliable}
use cert_broker.Broker.{Broker}
use cert_broker.Naming.{split_namespace, filter_on_ingress_labels}
use cert_broker.Cleanup.Laws.{clean_up_ingress_and_tls_secrets-total}
use cert_broker.Cleaner.Sync.{
  Controller, clean_up, check_target, sync_control, sync_names, sync_handler,
}
use cert_broker.Cleaner.Sync.Sweep.{rechecked, swept, sync_names_sweep}

module _ (api : Api) (reliable : IsReliable api) (c : Controller)
    (stays : c.update_ingresses ≡ false) where
  clean_up-total :
      (control_ing : Ingress) (s : Broker api.World)
      → (clean_up api c control_ing s).0 ≡ returned (false, none)
  clean_up-total control_ing s = ground (
    arith,
    clean_up_ingress_and_tls_secrets-total api reliable.ingress_deletes reliable.secret_deletes
        control_ing s,
  )

  -- Some answer, without an error.
  sync_control-total :
      (namespace : String) (control_ing : Ingress) (target_namespace target_name : String)
      (s : Broker api.World)
      → (again : Bool) × ((sync_control api c namespace control_ing
            (target_namespace, target_name)
            s).0
          ≡ returned (again, none))
  unfolding sync_control check_target
  sync_control-total namespace control_ing target_namespace target_name s =
      let read = api.target_ingress target_namespace target_name s.world in
      let s' : Broker api.World = record s { world = read.1 } in
      elim (Result-cases read.0) [
        | inl (t, e) ↦ elim (Bool-cases (filter_on_ingress_labels (ingress t))) [
          | inl m ↦ (true, ground (arith, e, m, stays))
          | inr m ↦ (false, ground (arith, e, m, clean_up-total control_ing s'))
        ]
        | inr (x, e) ↦ (
          false,
          ground (
            arith,
            e,
            reliable.target_reads target_namespace target_name s.world x e,
            clean_up-total control_ing s',
          ),
        )
      ]

  sync_names-total :
      (namespace name : String) (s : Broker api.World)
      → (again : Bool) × ((sync_names api c namespace name s).0 ≡ returned (again, none))
  unfolding sync_names
  sync_names-total namespace name s =
      let read = api.control_ingress namespace name s.world in
      let s' : Broker api.World = record s { world = read.1 } in
      let (target_namespace, target_name) = split_namespace name in
      elim (Result-cases read.0) [
        | inl (i, e) ↦
            let (again, r) = sync_control-total namespace i target_namespace target_name s' in
            (again, ground (arith, e, r))
        | inr (x, e) ↦ (false, ground (arith, e, reliable.control_reads namespace name s.world x e))
      ]

  module _ (lawful : IsLawful api) (fresh : IsFresh api lawful) where
    -- If the calls keep the laws, the caches are fresh, the clusters fail for what is missing alone
    -- and annotations are not to be updated, then syncHandler of a key that splits into a namespace
    -- and a name returns without an error, asks for another check exactly if there is a copy with a
    -- labelled counterpart, removes the copy with its secrets exactly if its counterpart is missing
    -- or no longer labelled, and changes nothing else.
    pub sync_handler-total :
        (key namespace name : String) (s : Broker api.World)
        → api.split_meta_namespace_key key ≡ ok (namespace, name)
        → let st = lawful.view s.world in
          let (target_namespace, target_name) = split_namespace name in
          let control = st.control_ingresses namespace name in
          let target = st.target_ingresses target_namespace target_name in
          ((sync_handler api c key s).0 ≡ returned (rechecked control target, none))
          × (lawful.view (sync_handler api c key s).1.world ≡ swept control target st)
    unfolding sync_handler
    sync_handler-total key namespace name s e =
        let run : sync_handler api c key s ≡ sync_names api c namespace name s =
          ground (arith, e) in
        let (again, r) = sync_names-total namespace name s in
        let (a, v) = sync_names_sweep api lawful fresh c stays namespace name s again r in
        rw run (r ∙ ap (λ (b : Bool). returned (b, none)) a, v)
