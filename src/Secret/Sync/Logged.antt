-- ===== src/Secret/Sync/Logged.antt =====
-- pkg/secret/sync.go: the failures of a run of Sync.
use cert_broker.Base.{String, ◌≡◌, arith, inl, inr}
use cert_broker.Base.{Result-cases, Option-cases, ok}
use cert_broker.Kube.Api.{Api}
use cert_broker.Kube.Logged.{logged, Reports}
use cert_broker.Broker.{Broker}
use cert_broker.Kube.{Secret}
use cert_broker.Naming.{split_namespace}
use cert_broker.Secret.Sync.{
  copy_of, managed_labels, has_ingress_in_target_cluster, replicate_secret_to_target_cluster,
  sync_secret, sync,
}

module _ (api : Api) (selector : api.Selector)
    (selects : api.label_selector managed_labels ≡ ok selector) where
  Reports-replicate : (x : Secret) → Reports api (replicate_secret_to_target_cluster (logged api) x)
  unfolding replicate_secret_to_target_cluster
  Reports-replicate x s =
      let t = copy_of x in
      elim (Option-cases ((logged api).create_secret t.namespace t s.world).0) [
        | inl e ↦ ground (arith, e)
        | inr (f, e) ↦ ground (arith, e)
      ]

  Reports-sync_secret :
      (x : Secret) (target : String × String) → Reports api (sync_secret (logged api) x target)
  unfolding sync_secret
  Reports-sync_secret x (target_namespace, target_name) s =
      elim (Result-cases (api.label_selector managed_labels)) [
        | inr (f, k) ↦ ground (arith, k)
        | inl (selector, k) ↦
            let list = (logged api).target_ingresses target_namespace selector s.world in
            let s' : Broker (logged api).World = record s { world = list.1 } in
            elim (Result-cases list.0) [
              | inr (f, e) ↦ ground (arith, k, e)
              | inl (ingresses, e) ↦ ground (arith, k, e, Reports-replicate x s')
            ]
      ]

  pub Reports-sync : (key : String) → Reports api (sync (logged api) key)
  unfolding sync cert_broker.Secret.Sync.sync_names
  Reports-sync key s = elim (Result-cases (api.split_meta_namespace_key key)) [
    | inr (f, k) ↦ ground (arith, k)
    | inl ((namespace, name), k) ↦
        let read = (logged api).control_secret namespace name s.world in
        elim (Result-cases read.0) [
          | inr (f, e) ↦ ground (arith, k, e)
          | inl (x, e) ↦ ground (
            arith,
            k,
            e,
            Reports-sync_secret x (split_namespace name) (record s { world = read.1 }),
          )
        ]
  ]
