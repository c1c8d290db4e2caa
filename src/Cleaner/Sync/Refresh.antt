-- ===== src/Cleaner/Sync/Refresh.antt =====
-- pkg/cleaner/controller.go: syncHandler where it updates annotations, which is the default.
use cert_broker.Base.{
  String, true, false, ◌≡◌, ◌≢◌, sym, ap, ◌∙◌, arith, Option, none, some, inl, inr, ok,
  if◌then◌else◌,
}
use cert_broker.Base.{Bool-cases, Result-cases}
use cert_broker.Base.Exec.{returned}
use cert_broker.Base.GoMap.{GoMap, GoMap-cases, Pairs, pairs}
use cert_broker.Kube.{Ingress, ingress}
use cert_broker.Kube.Api.{Api}
use cert_broker.Kube.Store.{Store, put_control_ingress}
use cert_broker.Kube.Laws.{IsLawful, IsFresh}
use cert_broker.Kube.Reliable.{IsReliable}
use cert_broker.Broker.{Broker}
use cert_broker.Naming.{split_namespace, filter_on_ingress_labels}
use cert_broker.Template.{create_ingress_annotations}
use cert_broker.Cleanup.Laws.{
  clean_up_ingress_and_tls_secrets-total, view-clean_up_ingress_and_tls_secrets,
}
use cert_broker.Ingress.Sync.Refinement.{cleaned}
use cert_broker.Cleaner.Sync.{
  Controller, clean_up, update_annotations, check_target, sync_control, sync_names, sync_handler,
}
use cert_broker.Cleaner.Sync.Annotations.{
  overridden, override-made, ranged, update_annotations_effect,
}
use cert_broker.Cleaner.Sync.Sweep.{is_managed, rechecked}

-- The copy with these entries written over its annotations.
abbrev pub refreshed : Pairs → Ingress → Ingress
refreshed entries c = record c {
  annotations = GoMap.made (overridden entries (pairs c.annotations));
}

-- The tables after the check, from the name of the copy's namespace and the entries of the template.
abbrev pub kept : Pairs → String → Option Ingress → Option Ingress → Store → Store
kept entries namespace none target st = st
kept entries namespace (some c) target st =
    if is_managed target
    then put_control_ingress namespace c.name (some (refreshed entries c)) st
    else cleaned (some c) st

module _ (api : Api) (c : Controller) where
  -- The entries that a check ranges over, after its two reads.
  abbrev pub entries_at : Broker api.World → String → String → Pairs
  entries_at s namespace name =
      let (target_namespace, target_name) = split_namespace name in
      let w =
        (api.target_ingress target_namespace target_name
          (api.control_ingress namespace name s.world).1).1 in
      ranged api c (record s { world = w })

module _ (api : Api) (lawful : IsLawful api) (fresh : IsFresh api lawful)
    (reliable : IsReliable api) (c : Controller) (updates : c.update_ingresses ≡ true) where
  open lawful use {view, view-target_ingress, view-control_ingress}

  update_annotations-total :
      (namespace : String) (control_ing : Ingress) (s : Broker api.World)
      → control_ing.annotations ≢ GoMap.nil
      → ((update_annotations api c namespace control_ing s).0 ≡ returned (true, none))
        × (view (update_annotations api c namespace control_ing s).1.world
            ≡ put_control_ingress namespace control_ing.name
                (some (refreshed (ranged api c s) control_ing))
                (view s.world))
  unfolding update_annotations
  update_annotations-total namespace control_ing s a = elim (GoMap-cases control_ing.annotations) [
    | inl e ↦ absurd (a e)
    | inr (m, e) ↦
        let entries = ranged api c s in
        let ing : Ingress = record control_ing {
          annotations = GoMap.made (overridden entries m);
        } in
        let w = (api.range (create_ingress_annotations c.ingress_class s.template) s.world).1 in
        let done : (update_annotations api c namespace control_ing s).0 ≡ returned (true, none) =
          ground (arith, e, override-made entries m, reliable.updates namespace ing w) in
        (
          done,
          update_annotations_effect api lawful c namespace control_ing m s e done
              ∙ ap
                  (λ (l : Pairs).
                    put_control_ingress namespace control_ing.name
                      (some
                        (record control_ing { annotations = GoMap.made (overridden entries l) }))
                      (view s.world))
                  (ap pairs (sym e)),
        )
  ]

  clean_up-total :
      (control_ing : Ingress) (s : Broker api.World) (st : Store)
      → view s.world ≡ st
      → ((clean_up api c control_ing s).0 ≡ returned (false, none))
        × (view (clean_up api c control_ing s).1.world ≡ cleaned (some control_ing) st)
  clean_up-total control_ing s st start =
      let done =
        clean_up_ingress_and_tls_secrets-total api reliable.ingress_deletes reliable.secret_deletes
          control_ing s in
      (
        ground (arith, done),
        ground (
          arith,
          done,
          view-clean_up_ingress_and_tls_secrets api lawful control_ing s done
              ∙ ap (cleaned (some control_ing)) start,
        ),
      )

  sync_control-total :
      (namespace : String) (control_ing : Ingress) (target_namespace target_name : String)
      (s : Broker api.World) (st : Store)
      → view s.world ≡ st
      → control_ing.annotations ≢ GoMap.nil
      → let target = st.target_ingresses target_namespace target_name in
        let s' : Broker api.World = record s {
          world = (api.target_ingress target_namespace target_name s.world).1;
        } in
        let run = sync_control api c namespace control_ing (target_namespace, target_name) s in
        (run.0 ≡ returned (is_managed target, none))
        × (view run.1.world ≡ kept (ranged api c s') namespace (some control_ing) target st)
  unfolding sync_control check_target
  sync_control-total namespace control_ing target_namespace target_name s st start a =
      let read = api.target_ingress target_namespace target_name s.world in
      let s' : Broker api.World = record s { world = read.1 } in
      let start' : view read.1 ≡ st =
        view-target_ingress target_namespace target_name s.world ∙ start in
      let at = ap (λ (t : Store). t.target_ingresses target_namespace target_name) (sym start) in
      elim (Result-cases read.0) [
        | inl (t, e) ↦
            let found = at ∙ fresh.target_found target_namespace target_name s.world t e in
            elim (Bool-cases (filter_on_ingress_labels (ingress t))) [
              | inl m ↦
                  let run : sync_control api c namespace control_ing (target_namespace, target_name)
                        s
                      ≡ update_annotations api c namespace control_ing s' =
                    ground (arith, e, m, updates) in
                  let l = update_annotations-total namespace control_ing s' a in
                  rw (found, run, m)
                    (
                      l.0,
                      l.1
                          ∙ ap
                              (put_control_ingress namespace control_ing.name
                                (some (refreshed (ranged api c s') control_ing)))
                              start',
                    )
              | inr m ↦
                  let run : sync_control api c namespace control_ing (target_namespace, target_name)
                        s
                      ≡ clean_up api c control_ing s' =
                    ground (arith, e, m) in
                  rw (found, run, m) (clean_up-total control_ing s' st start')
            ]
        | inr (x, e) ↦
            let m = reliable.target_reads target_namespace target_name s.world x e in
            let run : sync_control api c namespace control_ing (target_namespace, target_name) s
                ≡ clean_up api c control_ing s' =
              ground (arith, e, m) in
            rw (at ∙ fresh.target_missing target_namespace target_name s.world x e m, run)
              (clean_up-total control_ing s' st start')
      ]

  pub sync_names-refreshes :
      (namespace name : String) (s : Broker api.World)
      → ((i : Ingress)
          → (view s.world).control_ingresses namespace name ≡ some i
          → i.annotations ≢ GoMap.nil)
      → let st = view s.world in
        let (target_namespace, target_name) = split_namespace name in
        let control = st.control_ingresses namespace name in
        let target = st.target_ingresses target_namespace target_name in
        ((sync_names api c namespace name s).0 ≡ returned (rechecked control target, none))
        × (view (sync_names api c namespace name s).1.world
            ≡ kept (entries_at api c s namespace name) namespace control target st)
  unfolding sync_names
  sync_names-refreshes namespace name s a =
      let read = api.control_ingress namespace name s.world in
      let s' : Broker api.World = record s { world = read.1 } in
      let start = view-control_ingress namespace name s.world in
      let (target_namespace, target_name) = split_namespace name in
      elim (Result-cases read.0) [
        | inl (i, e) ↦
            let found = fresh.control_found namespace name s.world i e in
            let run : sync_names api c namespace name s
                ≡ sync_control api c namespace i (target_namespace, target_name) s' =
              ground (arith, e) in
            rw (found, run)
              (sync_control-total namespace i target_namespace target_name s' (view s.world) start
                (a i found))
        | inr (x, e) ↦
            let m = reliable.control_reads namespace name s.world x e in
            rw (fresh.control_missing namespace name s.world x e m) (ground (arith, e, m, start))
      ]

  -- If the calls keep the laws, the caches are fresh, the clusters fail for what is missing alone,
  -- annotations are to be updated, the key splits into a namespace and a name, and the copy of that
  -- name, if there is one, has annotations, then syncHandler returns without an error, asks for
  -- another check exactly if there is a copy with a labelled counterpart, writes the entries over
  -- which it ranges, which are those of the template, over the annotations of such a copy, removes
  -- any other copy with its secrets, and changes nothing else.
  pub sync_handler-refreshes :
      (key namespace name : String) (s : Broker api.World)
      → api.split_meta_namespace_key key ≡ ok (namespace, name)
      → ((i : Ingress)
          → (view s.world).control_ingresses namespace name ≡ some i
          → i.annotations ≢ GoMap.nil)
      → let st = view s.world in
        let (target_namespace, target_name) = split_namespace name in
        let control = st.control_ingresses namespace name in
        let target = st.target_ingresses target_namespace target_name in
        ((sync_handler api c key s).0 ≡ returned (rechecked control target, none))
        × (view (sync_handler api c key s).1.world
            ≡ kept (entries_at api c s namespace name) namespace control target st)
  unfolding sync_handler
  sync_handler-refreshes key namespace name s e a =
      let run : sync_handler api c key s ≡ sync_names api c namespace name s = ground (arith, e) in
      rw run (sync_names-refreshes namespace name s a)
