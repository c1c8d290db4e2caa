-- ===== src/Cleaner/Sync/Logged.antt =====
-- pkg/cleaner/controller.go: the failures of a run of syncHandler.
use cert_broker.Base.{String, arith, inl, inr}
use cert_broker.Base.{Result-cases}
use cert_broker.Kube.Api.{Api}
use cert_broker.Kube.Logged.{logged, ReportsIn}
use cert_broker.Broker.{Broker}
use cert_broker.Base.Exec.{Outcome-cases}
use cert_broker.Kube.{Ingress}
use cert_broker.Naming.{split_namespace}
use cert_broker.Template.{create_ingress_annotations}
use cert_broker.Cleanup.{clean_up_ingress_and_tls_secrets}
use cert_broker.Cleanup.Logged.{Reports-clean_up}
use cert_broker.Cleaner.Sync.{
  Controller, override, update_annotations, check_target, clean_up, sync_control, sync_handler,
}

module _ (api : Api) (c : Controller) where
  Reports-update_annotations :
      (namespace : String) (i : Ingress)
      → ReportsIn api (λ r. r.1) (update_annotations (logged api) c namespace i)
  unfolding update_annotations
  Reports-update_annotations namespace i s =
      let read =
        (logged api).range (create_ingress_annotations c.ingress_class s.template) s.world in
      elim (Outcome-cases (override read.0 i.annotations)) [
        | inl (annotations, e) ↦ ground (arith, e)
        | inr e ↦ ground (arith, e)
      ]

  Reports-clean : (i : Ingress) → ReportsIn api (λ r. r.1) (clean_up (logged api) c i)
  Reports-clean i s =
      let done = clean_up_ingress_and_tls_secrets (logged api) i s in
      let q = Reports-clean_up api i s in
      elim (Outcome-cases done.0) [
        | inl (x, e) ↦ ground (arith, e, q)
        | inr e ↦ ground (arith, e, q)
      ]

  Reports-sync_control :
      (namespace : String) (i : Ingress) (target : String × String)
      → ReportsIn api (λ r. r.1) (sync_control (logged api) c namespace i target)
  unfolding sync_control check_target
  Reports-sync_control namespace i (target_namespace, target_name) s =
      let read = (logged api).target_ingress target_namespace target_name s.world in
      let s' : Broker (logged api).World = record s { world = read.1 } in
      elim (Result-cases read.0) [
        | inr (f, e) ↦ ground (arith, e, Reports-clean i s')
        | inl (t, e) ↦
            ground (arith, e, Reports-clean i s', Reports-update_annotations namespace i s')
      ]

  pub Reports-sync_handler :
      (key : String) → ReportsIn api (λ r. r.1) (sync_handler (logged api) c key)
  unfolding sync_handler cert_broker.Cleaner.Sync.sync_names
  Reports-sync_handler key s = elim (Result-cases (api.split_meta_namespace_key key)) [
    | inr (f, k) ↦ ground (arith, k)
    | inl ((namespace, name), k) ↦
        let read = (logged api).control_ingress namespace name s.world in
        elim (Result-cases read.0) [
          | inr (f, e) ↦ ground (arith, k, e)
          | inl (i, e) ↦ ground (
            arith,
            k,
            e,
            Reports-sync_control namespace i (split_namespace name) (record s { world = read.1 }),
          )
        ]
  ]
