-- ===== src/Secret/Sync/Totality.antt =====
-- pkg/secret/sync.go: Sync where the clusters answer every call.
use cert_broker.Base.{String, ◌≡◌, arith, none, some, List, inl, inr, ok, if◌then◌else◌}
use cert_broker.Base.{Bool-cases, Option-cases}
use cert_broker.Base.Exec.{returned}
use cert_broker.Kube.{Ingress, Secret}
use cert_broker.Kube.Api.{Api}
use cert_broker.Kube.Store.{put_target_secret}
use cert_broker.Kube.Laws.{IsLawful}
use cert_broker.Kube.Reliable.{IsReliable}
use cert_broker.Broker.{Broker}
use cert_broker.Naming.{split_namespace}
use cert_broker.Secret.Sync.{
  has_ingress_in_target_cluster, managed_labels, copy_of, replicate_secret_to_target_cluster,
  sync_secret, sync_names, sync,
}
use cert_broker.Secret.Sync.Effects.{sync_names_replication}

module _ (api : Api) (reliable : IsReliable api) where
  replicate-total :
      (x : Secret) (s : Broker api.World)
      → (replicate_secret_to_target_cluster api x s).0 ≡ returned none
  unfolding replicate_secret_to_target_cluster
  replicate-total x s =
      let t = copy_of x in
      let post = api.create_secret t.namespace t s.world in
      elim (Option-cases post.0) [
        | inl e ↦ ground (arith, e)
        | inr (f, e) ↦ ground (
          arith,
          e,
          reliable.secret_creates t.namespace t s.world f e,
          reliable.secret_updates t.namespace t post.1,
        )
      ]

  sync_names-total :
      (namespace secret_name : String) (s : Broker api.World) (x : Secret) (selector : api.Selector)
      (ingresses : List Ingress)
      → let read = api.control_secret namespace secret_name s.world in
        let (target_namespace, target_name) = split_namespace secret_name in
        read.0 ≡ ok x
        → api.label_selector managed_labels ≡ ok selector
        → (api.target_ingresses target_namespace selector read.1).0 ≡ ok ingresses
        → (sync_names api namespace secret_name s).0 ≡ returned none
  unfolding sync_names sync_secret
  sync_names-total namespace secret_name s x selector ingresses found selects listed =
      let read = api.control_secret namespace secret_name s.world in
      let (target_namespace, target_name) = split_namespace secret_name in
      let list = api.target_ingresses target_namespace selector read.1 in
      let s' : Broker api.World = record s { world = list.1 } in
      elim (Bool-cases (has_ingress_in_target_cluster ingresses target_name)) [
        | inl m ↦ ground (arith, found, selects, listed, m, replicate-total x s')
        | inr m ↦ ground (arith, found, selects, listed, m)
      ]

  module _ (lawful : IsLawful api) where
    -- If the calls keep the laws, the clusters fail for what is missing or there already alone, and
    -- Sync, of a key that splits into a namespace and a name, reads the secret and selects and
    -- lists the labelled Ingress resources of its namespace in the target cluster, then Sync
    -- returns without an error, the copy of the secret stands in the target cluster if one of these
    -- Ingress resources names it, and nothing else changes.
    pub sync-replicates :
        (key namespace secret_name : String) (s : Broker api.World) (x : Secret)
        (selector : api.Selector) (ingresses : List Ingress)
        → let read = api.control_secret namespace secret_name s.world in
          let (target_namespace, target_name) = split_namespace secret_name in
          api.split_meta_namespace_key key ≡ ok (namespace, secret_name)
          → read.0 ≡ ok x
          → api.label_selector managed_labels ≡ ok selector
          → (api.target_ingresses target_namespace selector read.1).0 ≡ ok ingresses
          → ((sync api key s).0 ≡ returned none)
            × (lawful.view (sync api key s).1.world ≡ (
                if has_ingress_in_target_cluster ingresses target_name
                then put_target_secret
                    (copy_of x).namespace
                    (copy_of x).name
                    (some (copy_of x))
                    (lawful.view s.world)
                else lawful.view s.world))
    unfolding sync
    sync-replicates key namespace secret_name s x selector ingresses split found selects listed =
        let run : sync api key s ≡ sync_names api namespace secret_name s = ground (arith, split) in
        let done =
          sync_names-total namespace secret_name s x selector ingresses found selects listed in
        rw run (
          done,
          sync_names_replication api lawful namespace secret_name s x selector ingresses found
              selects listed done,
        )
