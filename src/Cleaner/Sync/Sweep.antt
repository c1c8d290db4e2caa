-- ===== src/Cleaner/Sync/Sweep.antt =====
-- pkg/cleaner/controller.go: syncHandler against a description of what it is to remove, where it does
-- not update annotations.
use cert_broker.Base.{
  String, Bool, false, ◌≡◌, ◌∙◌, sym, ap, arith, Option, none, some, inl, inr, if◌then◌else◌,
}
use cert_broker.Base.{Bool-cases, Result-cases}
use cert_broker.Base.Exec.{Outcome-cases, returned}
use cert_broker.Kube.{Ingress, ingress}
use cert_broker.Kube.Api.{Api}
use cert_broker.Kube.Store.{Store}
use cert_broker.Kube.Laws.{IsLawful, IsFresh}
use cert_broker.Broker.{Broker}
use cert_broker.Naming.{split_namespace, filter_on_ingress_labels}
use cert_broker.Cleanup.{clean_up_ingress_and_tls_secrets}
use cert_broker.Cleanup.Laws.{view-clean_up_ingress_and_tls_secrets}
use cert_broker.Ingress.Sync.Refinement.{cleaned}
use cert_broker.Cleaner.Sync.{Controller, clean_up, check_target, sync_control, sync_names}

-- An Ingress of the target cluster that is labelled as managed.
abbrev pub is_managed : Option Ingress → Bool
is_managed none = false
is_managed (some t) = filter_on_ingress_labels (ingress t)

-- Whether the copy is to be checked again, from the copy and its counterpart.
abbrev pub rechecked : Option Ingress → Option Ingress → Bool
rechecked none target = false
rechecked (some c) target = is_managed target

-- The tables after the check.
abbrev pub swept : Option Ingress → Option Ingress → Store → Store
swept none target st = st
swept (some c) target st = if is_managed target then st else cleaned (some c) st

module _ (api : Api) (lawful : IsLawful api) (fresh : IsFresh api lawful) (c : Controller)
    (stays : c.update_ingresses ≡ false) where
  open lawful use {view, view-target_ingress, view-control_ingress}

  clean_up_effect :
      (control_ing : Ingress) (s : Broker api.World) (again : Bool)
      → (clean_up api c control_ing s).0 ≡ returned (again, none)
      → (again ≡ false)
        × (view (clean_up api c control_ing s).1.world ≡ cleaned (some control_ing) (view s.world))
  clean_up_effect control_ing s again r =
      let l = clean_up_ingress_and_tls_secrets api control_ing s in
      elim (Outcome-cases l.0) [
        | inl (none, e) ↦ (
          ground (arith, e),
          ground (arith, e, view-clean_up_ingress_and_tls_secrets api lawful control_ing s e),
        )
        | inl (some x, e) ↦ absurd (ground (arith, e))
        | inr e ↦ absurd (ground (arith, e))
      ]

  sync_control_effect :
      (namespace : String) (control_ing : Ingress) (target_namespace target_name : String)
      (s : Broker api.World) (again : Bool) (st : Store)
      → view s.world ≡ st
      → (sync_control api c namespace control_ing (target_namespace, target_name) s).0
        ≡ returned (again, none)
      → let target = st.target_ingresses target_namespace target_name in
        (again ≡ is_managed target)
        × (view (sync_control api c namespace control_ing (target_namespace, target_name) s).1.world
            ≡ (if is_managed target then st else cleaned (some control_ing) st))
  unfolding sync_control check_target
  sync_control_effect namespace control_ing target_namespace target_name s again st start r =
      let read = api.target_ingress target_namespace target_name s.world in
      let s' : Broker api.World = record s { world = read.1 } in
      let start' : view read.1 ≡ st =
        view-target_ingress target_namespace target_name s.world ∙ start in
      let at = ap (λ (t : Store). t.target_ingresses target_namespace target_name) (sym start) in
      elim (Result-cases read.0) [
        | inl (t, e) ↦
            let found = at ∙ fresh.target_found target_namespace target_name s.world t e in
            elim (Bool-cases (filter_on_ingress_labels (ingress t))) [
              | inl m ↦ rw found (ground (arith, e, m, stays, start'))
              | inr m ↦
                  let run : sync_control api c namespace control_ing (target_namespace, target_name)
                        s
                      ≡ clean_up api c control_ing s' =
                    ground (arith, e, m) in
                  let l = clean_up_effect control_ing s' again (rw run at r) in
                  rw (found, run, m) (l.0, l.1 ∙ ap (cleaned (some control_ing)) start')
            ]
        | inr (x, e) ↦ elim (Bool-cases (api.is_not_found x)) [
          | inl m ↦
              let run : sync_control api c namespace control_ing (target_namespace, target_name) s
                  ≡ clean_up api c control_ing s' =
                ground (arith, e, m) in
              let l = clean_up_effect control_ing s' again (rw run at r) in
              rw (at ∙ fresh.target_missing target_namespace target_name s.world x e m, run)
                (l.0, l.1 ∙ ap (cleaned (some control_ing)) start')
          | inr m ↦ absurd (ground (arith, e, m))
        ]
      ]

  -- If the calls keep the laws, the caches are fresh, annotations are not to be updated and the
  -- check of a name reports no error, then the copy of that name is removed with its secrets
  -- exactly if its counterpart is missing or no longer labelled, the name is to be checked again
  -- exactly if there is a copy with a labelled counterpart, and nothing else changes.
  pub sync_names_sweep :
      (namespace name : String) (s : Broker api.World) (again : Bool)
      → (sync_names api c namespace name s).0 ≡ returned (again, none)
      → let st = view s.world in
        let (target_namespace, target_name) = split_namespace name in
        let control = st.control_ingresses namespace name in
        let target = st.target_ingresses target_namespace target_name in
        (again ≡ rechecked control target)
        × (view (sync_names api c namespace name s).1.world ≡ swept control target st)
  unfolding sync_names
  sync_names_sweep namespace name s again r =
      let read = api.control_ingress namespace name s.world in
      let s' : Broker api.World = record s { world = read.1 } in
      let start = view-control_ingress namespace name s.world in
      let (target_namespace, target_name) = split_namespace name in
      elim (Result-cases read.0) [
        | inl (i, e) ↦
            let run : sync_names api c namespace name s
                ≡ sync_control api c namespace i (target_namespace, target_name) s' =
              ground (arith, e) in
            rw (run, fresh.control_found namespace name s.world i e)
              (sync_control_effect namespace i target_namespace target_name s' again (view s.world)
                start (rw run at r))
        | inr (x, e) ↦ elim (Bool-cases (api.is_not_found x)) [
          | inl m ↦
              rw (fresh.control_missing namespace name s.world x e m) (ground (arith, e, m, start))
          | inr m ↦ absurd (ground (arith, e, m))
        ]
      ]
