-- ===== src/Ingress/Sync/Refinement.antt =====
-- pkg/ingress/sync.go: Sync against a description of the control cluster that it is to leave.
use cert_broker.Base.{
  String, true, ◌≡◌, refl, ◌∙◌, sym, ap, arith, Option, none, some, List, [], ◌∷◌, inl, inr, ok,
  err, if◌then◌else◌,
}
use cert_broker.Base.{Bool-cases, Result, Result-cases}
use cert_broker.Base.Exec.{returned}
use cert_broker.Base.Slice.{elements}
use cert_broker.Kube.{Ingress, IngressTls}
use cert_broker.Kube.Api.{Api}
use cert_broker.Kube.Store.{Store, put_control_ingress}
use cert_broker.Kube.Laws.{IsLawful, IsFresh}
use cert_broker.Broker.{Broker}
use cert_broker.Naming.{create_name_for_control_cluster}
use cert_broker.Template.{IngressTemplate}
use cert_broker.Cleanup.{clean_up_ingress_and_tls_secrets}
use cert_broker.Cleanup.Laws.{remove_secrets, view-clean_up_ingress_and_tls_secrets}
use cert_broker.Ingress.Prefix.{deep_equal}
use cert_broker.Ingress.CopyTls.Effects.{quiet}
use cert_broker.Ingress.CopyTls.Order.{IsWellConfigured}
use cert_broker.Ingress.Sync.{
  Handler, clean_up_ingress_and_secrets, sync_existing, sync_names, create_ingress, update_ingress,
}
use cert_broker.Ingress.Sync.Effects.{
  selected, created, updated, create_ingress_effect, update_ingress_effect,
}

-- The tables after a clean-up of what stands at a name.
abbrev pub cleaned : Option Ingress → Store → Store
cleaned none st = st
cleaned (some c) st =
    remove_secrets c.namespace (elements c.tls) (put_control_ingress c.namespace c.name none st)

module _ (h : Handler) where
  -- The tables after Sync of an Ingress of the target cluster that exists.
  abbrev pub replicated : IngressTemplate → String → Ingress → Option Ingress → Store → Store
  replicated t name target_ing none st = (created h t name target_ing (selected h target_ing) st).0
  replicated t name target_ing (some control_ing) st =
      if deep_equal target_ing.tls control_ing.tls target_ing.namespace
      then st
      else updated h target_ing control_ing (selected h target_ing) st

  -- The tables after Sync, from the tables before it.
  abbrev pub synced : IngressTemplate → String → Option Ingress → Option Ingress → Store → Store
  synced t name none control st = cleaned control st
  synced t name (some target_ing) control st = replicated t name target_ing control st

quiet-remove_secrets :
    (namespace : String) (tls : List IngressTls) (st : Store)
    → quiet (remove_secrets namespace tls st) ≡ remove_secrets namespace tls (quiet st)
quiet-remove_secrets namespace [] st = refl
quiet-remove_secrets namespace (entry ∷ tls) st = quiet-remove_secrets namespace tls _

module _ (api : Api) (lawful : IsLawful api) (fresh : IsFresh api lawful) (h : Handler)
    (fit : IsWellConfigured api h.domain_to_dns_provider) where
  open lawful use {view, view-target_ingress, view-control_ingress}

  -- The tables from which a call starts that follows a read.
  module _ (name : String) (s : Broker api.World) (st : Store)
      (start : quiet (view s.world) ≡ st) where
    abbrev read : Result api.Error Ingress × api.World
    read = api.control_ingress h.resource_namespace name s.world

    abbrev s' : Broker api.World
    s' = record s { world = read.1 }

    start' : quiet (view read.1) ≡ st
    start' = ap quiet (view-control_ingress h.resource_namespace name s.world) ∙ start

    control_found :
        (c : Ingress) → read.0 ≡ ok c → st.control_ingresses h.resource_namespace name ≡ some c
    control_found c e =
        ap (λ (t : Store). t.control_ingresses h.resource_namespace name) (sym start)
        ∙ fresh.control_found h.resource_namespace name s.world c e

    control_missing :
        (x : api.Error)
        → read.0 ≡ err x
        → api.is_not_found x ≡ true
        → st.control_ingresses h.resource_namespace name ≡ none
    control_missing x e m =
        ap (λ (t : Store). t.control_ingresses h.resource_namespace name) (sym start)
        ∙ fresh.control_missing h.resource_namespace name s.world x e m

    clean_up_effect :
        (clean_up_ingress_and_secrets api h name s).0 ≡ returned none
        → quiet (view (clean_up_ingress_and_secrets api h name s).1.world)
          ≡ cleaned (st.control_ingresses h.resource_namespace name) st
    unfolding clean_up_ingress_and_secrets
    clean_up_effect r = elim (Result-cases read.0) [
      | inl (c, e) ↦
          let run : clean_up_ingress_and_secrets api h name s
              ≡ clean_up_ingress_and_tls_secrets api c s' =
            ground (arith, e) in
          rw (run, control_found c e)
            (ap quiet (view-clean_up_ingress_and_tls_secrets api lawful c s' (rw run at r))
              ∙ quiet-remove_secrets c.namespace (elements c.tls) _
              ∙ ap (cleaned (some c)) start')
      | inr (x, e) ↦ elim (Bool-cases (api.is_not_found x)) [
        | inl m ↦ rw (control_missing x e m) (ground (arith, e, m, start'))
        | inr m ↦ absurd (ground (arith, e, m))
      ]
    ]

    sync_existing_effect :
        (target_ing : Ingress)
        → (sync_existing api h name target_ing s).0 ≡ returned none
        → quiet (view (sync_existing api h name target_ing s).1.world)
          ≡ replicated h s.template name target_ing
              (st.control_ingresses h.resource_namespace name)
              st
    unfolding sync_existing
    sync_existing_effect target_ing r = elim (Result-cases read.0) [
      | inl (c, e) ↦
          let run : sync_existing api h name target_ing s ≡ update_ingress api h target_ing c s' =
            ground (arith, e) in
          rw (run, control_found c e)
            ((update_ingress_effect api lawful h fit target_ing c s' (rw run at r)).0
              ∙ ap (replicated h s.template name target_ing (some c)) start')
      | inr (x, e) ↦ elim (Bool-cases (api.is_not_found x)) [
        | inl m ↦
            let run : sync_existing api h name target_ing s
                ≡ create_ingress api h name target_ing s' =
              ground (arith, e, m) in
            rw (run, control_missing x e m)
              ((create_ingress_effect api lawful h fit name target_ing s' (rw run at r)).0
                ∙ ap (replicated h s.template name target_ing none) start')
        | inr m ↦ absurd (ground (arith, e, m))
      ]
    ]

  -- If the calls keep the laws, the caches are fresh, the domains are well configured and Sync of a
  -- namespace and a name reports no error, then, events aside, the tables are those of the
  -- description, whether or not other calls would fail.
  pub sync_names_effect :
      (namespace name : String) (s : Broker api.World)
      → (sync_names api h namespace name s).0 ≡ returned none
      → let st = quiet (view s.world) in
        quiet (view (sync_names api h namespace name s).1.world)
        ≡ synced h s.template
            (create_name_for_control_cluster namespace name)
            (st.target_ingresses namespace name)
            (st.control_ingresses h.resource_namespace
              (create_name_for_control_cluster namespace name))
            st
  unfolding sync_names
  sync_names_effect namespace name s r =
      let found = api.target_ingress namespace name s.world in
      let s' : Broker api.World = record s { world = found.1 } in
      let start : quiet (view found.1) ≡ quiet (view s.world) =
        ap quiet (view-target_ingress namespace name s.world) in
      let control_name = create_name_for_control_cluster namespace name in
      elim (Result-cases found.0) [
        | inl (t, e) ↦
            let run : sync_names api h namespace name s ≡ sync_existing api h control_name t s' =
              ground (arith, e) in
            rw (run, fresh.target_found namespace name s.world t e)
              (sync_existing_effect control_name s' (quiet (view s.world)) start t (rw run at r))
        | inr (x, e) ↦ elim (Bool-cases (api.is_not_found x)) [
          | inl m ↦
              let run : sync_names api h namespace name s
                  ≡ clean_up_ingress_and_secrets api h control_name s' =
                ground (arith, e, m) in
              rw (run, fresh.target_missing namespace name s.world x e m)
                (clean_up_effect control_name s' (quiet (view s.world)) start (rw run at r))
          | inr m ↦ absurd (ground (arith, e, m))
        ]
      ]
