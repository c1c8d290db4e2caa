-- ===== src/Secret/Sync/Guarded.antt =====
-- pkg/secret/sync.go: Sync, with calls that keep an invariant.
use cert_broker.Base.{String, ◌≡◌, refl, none, some, inl, inr, arith, if◌then◌else◌}
use cert_broker.Base.{Result-cases, Option-cases, Bool-cases}
use cert_broker.Base.Exec.{returned}
use cert_broker.Kube.{Secret}
use cert_broker.Kube.Api.{Api}
use cert_broker.Kube.Guarded.{IsGuarded}
use cert_broker.Broker.{Broker}
use cert_broker.Naming.{split_namespace}
use cert_broker.Ingress.CopyTls.Guarded.{Safe}
use cert_broker.Secret.Sync.{
  copy_of, managed_labels, has_ingress_in_target_cluster, replicate_secret_to_target_cluster,
  sync_secret, sync,
}

module _ (api : Api) (Inv : api.World → Type 0) (g : IsGuarded api Inv) where
  Safe-replicate : (x : Secret) → Safe api Inv g (replicate_secret_to_target_cluster api x)
  unfolding replicate_secret_to_target_cluster
  Safe-replicate x s inv =
      let t = copy_of x in
      let done = api.create_secret t.namespace t s.world in
      let inv' = g.keeps-create_secret t.namespace t s.world inv in
      elim (Option-cases done.0) [
        | inl e ↦ rw e (none, refl, inv')
        | inr (f, e) ↦ elim (Bool-cases (api.is_already_exists f)) [
          | inl d ↦ rw (e, d) (_, refl, g.keeps-update_secret t.namespace t done.1 inv')
          | inr d ↦ rw (e, d) (some f, refl, inv')
        ]
      ]

  Safe-sync_secret :
      (x : Secret) (target : String × String) → Safe api Inv g (sync_secret api x target)
  unfolding sync_secret
  Safe-sync_secret x (target_namespace, target_name) s inv =
      let now = sync_secret api x (target_namespace, target_name) s in
      elim (Result-cases (api.label_selector managed_labels)) [
        | inr (f, k) ↦
            let run : now ≡ (returned (some f), s) = ground (arith, k) in rw run (some f, refl, inv)
        | inl (selector, k) ↦
            let list = api.target_ingresses target_namespace selector s.world in
            let inv' = g.keeps-target_ingresses target_namespace selector s.world inv in
            let s' : Broker api.World = record s { world = list.1 } in
            elim (Result-cases list.0) [
              | inr (f, e) ↦
                  let run : now ≡ (returned (some f), s') = ground (arith, k, e) in
                  rw run (some f, refl, inv')
              | inl (ingresses, e) ↦
                  elim (Bool-cases (has_ingress_in_target_cluster ingresses target_name)) [
                    | inl d ↦
                        let run : now ≡ replicate_secret_to_target_cluster api x s' =
                          ground (arith, k, e, d) in
                        rw run (Safe-replicate x s' inv')
                    | inr d ↦
                        let run : now ≡ (returned none, s') = ground (arith, k, e, d) in
                        rw run (none, refl, inv')
                  ]
            ]
      ]

  pub Safe-sync : (key : String) → Safe api Inv g (sync api key)
  unfolding sync cert_broker.Secret.Sync.sync_names
  Safe-sync key s inv = elim (Result-cases (api.split_meta_namespace_key key)) [
    | inr (f, k) ↦
        let run : sync api key s ≡ (returned none, s) = ground (arith, k) in
        rw run (none, refl, inv)
    | inl ((namespace, name), k) ↦
        let read = api.control_secret namespace name s.world in
        let inv' = g.keeps-control_secret namespace name s.world inv in
        let s' : Broker api.World = record s { world = read.1 } in
        elim (Result-cases read.0) [
          | inr (f, e) ↦
              let result = if api.is_not_found f then none else some f in
              let run : sync api key s ≡ (returned result, s') = ground (arith, k, e) in
              rw run (result, refl, inv')
          | inl (x, e) ↦
              let run : sync api key s ≡ sync_secret api x (split_namespace name) s' =
                ground (arith, k, e) in
              rw run (Safe-sync_secret x (split_namespace name) s' inv')
        ]
  ]
