-- ===== src/Cleaner/Sync/Guarded.antt =====
-- pkg/cleaner/controller.go: syncHandler, with calls that keep an invariant.
use cert_broker.Base.{String, ◌≡◌, refl, none, some, [], ◌∷◌, inl, inr, arith, if◌then◌else◌}
use cert_broker.Base.{Result-cases, Bool-cases}
use cert_broker.Base.Exec.{returned}
use cert_broker.Base.{true, false, ◌≢◌}
use cert_broker.Base.GoMap.{GoMap, Pairs, insert}
use cert_broker.Kube.{Ingress, ingress}
use cert_broker.Kube.Api.{Api}
use cert_broker.Kube.Guarded.{IsGuarded}
use cert_broker.Broker.{Broker}
use cert_broker.Naming.{split_namespace, filter_on_ingress_labels}
use cert_broker.Template.{create_ingress_annotations}
use cert_broker.Ingress.CopyTls.Guarded.{Safe, Safe-clean_up}
use cert_broker.Cleaner.Sync.{
  Controller, override, update_annotations, clean_up, check_target, sync_control, sync_handler,
}

-- The overriding of a map that is not nil.
override-made :
    (entries : Pairs) (annotations : GoMap)
    → annotations ≢ GoMap.nil
    → (m : Pairs) × (override entries annotations ≡ returned (GoMap.made m))
unfolding override
override-made entries GoMap.nil annotated = absurd (annotated refl)
override-made [] (GoMap.made m) annotated = (m, refl)
override-made ((k, v) ∷ entries) (GoMap.made m) annotated =
    override-made entries (GoMap.made (insert k v m)) (λ f. absurd (cc f))

module _ (api : Api) (Inv : api.World → Type 0) (g : IsGuarded api Inv) (c : Controller) where
  Safe-update_annotations :
      (namespace : String) (i : Ingress)
      → i.annotations ≢ GoMap.nil
      → Safe api Inv g (update_annotations api c namespace i)
  unfolding update_annotations
  Safe-update_annotations namespace i annotated s inv =
      let template = create_ingress_annotations c.ingress_class s.template in
      let read = api.range template s.world in
      let inv' = g.keeps-range template s.world inv in
      let (m, e) = override-made read.0 i.annotations annotated in
      let updated : Ingress = record i { annotations = GoMap.made m } in
      rw e (_, refl, g.keeps-update_ingress namespace updated read.1 (λ f. absurd (cc f)) inv')

  Safe-clean : (i : Ingress) → Safe api Inv g (clean_up api c i)
  Safe-clean i s inv =
      let (x, e, inv') = Safe-clean_up api Inv g i s inv in rw e ((false, x), refl, inv')

  Safe-check_target :
      (namespace : String) (i target : Ingress)
      → i.annotations ≢ GoMap.nil
      → Safe api Inv g (check_target api c namespace i target)
  unfolding check_target
  Safe-check_target namespace i target annotated s inv =
      elim (Bool-cases (filter_on_ingress_labels (ingress target))) [
        | inr m ↦ rw m (Safe-clean i s inv)
        | inl m ↦ elim (Bool-cases c.update_ingresses) [
          | inl u ↦
              let run : check_target api c namespace i target s
                  ≡ update_annotations api c namespace i s =
                ground (arith, m, u) in
              rw run (Safe-update_annotations namespace i annotated s inv)
          | inr u ↦
              let run : check_target api c namespace i target s ≡ (returned (true, none), s) =
                ground (arith, m, u) in
              rw run ((true, none), refl, inv)
        ]
      ]

  Safe-sync_control :
      (namespace : String) (i : Ingress) (target : String × String)
      → i.annotations ≢ GoMap.nil
      → Safe api Inv g (sync_control api c namespace i target)
  unfolding sync_control
  Safe-sync_control namespace i (target_namespace, target_name) annotated s inv =
      let read = api.target_ingress target_namespace target_name s.world in
      let inv' = g.keeps-target_ingress target_namespace target_name s.world inv in
      let s' : Broker api.World = record s { world = read.1 } in
      elim (Result-cases read.0) [
        | inl (t, e) ↦ rw e (Safe-check_target namespace i t annotated s' inv')
        | inr (f, e) ↦ elim (Bool-cases (api.is_not_found f)) [
          | inl d ↦ rw (e, d) (Safe-clean i s' inv')
          | inr d ↦ rw (e, d) ((true, some f), refl, inv')
        ]
      ]

  pub Safe-sync_handler : (key : String) → Safe api Inv g (sync_handler api c key)
  unfolding sync_handler cert_broker.Cleaner.Sync.sync_names
  Safe-sync_handler key s inv = elim (Result-cases (api.split_meta_namespace_key key)) [
    | inr (f, k) ↦
        let run : sync_handler api c key s ≡ (returned (true, none), s) = ground (arith, k) in
        rw run ((true, none), refl, inv)
    | inl ((namespace, name), k) ↦
        let read = api.control_ingress namespace name s.world in
        let inv' = g.keeps-control_ingress namespace name s.world inv in
        let s' : Broker api.World = record s { world = read.1 } in
        elim (Result-cases read.0) [
          | inr (f, e) ↦
              let result = if api.is_not_found f then (false, none) else (true, some f) in
              let run : sync_handler api c key s ≡ (returned result, s') = ground (arith, k, e) in
              rw run (result, refl, inv')
          | inl (i, e) ↦
              let annotated = g.reads_annotated namespace name s.world i inv e in
              let run : sync_handler api c key s
                  ≡ sync_control api c namespace i (split_namespace name) s' =
                ground (arith, k, e) in
              rw run (Safe-sync_control namespace i (split_namespace name) annotated s' inv')
        ]
  ]
