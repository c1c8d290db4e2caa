-- ===== src/Secret/Sync/Effects.antt =====
-- pkg/secret/sync.go: what Sync writes to the target cluster.
use cert_broker.Base.{
  String, true, ◌≡◌, ◌↔◌, ◌∙◌, ap, arith, none, some, List, [], ◌∷◌, inl, inr, ok, eq_iff,
  if◌then◌else◌, Any,
}
use cert_broker.Base.{Bool-cases, Option-cases}
use cert_broker.Base.Exec.{returned}
use cert_broker.Base.Slice.{elements}
use cert_broker.Base.GoMap.{GoMap}
use cert_broker.Kube.{Ingress, IngressTls, Secret}
use cert_broker.Kube.Api.{Api}
use cert_broker.Kube.Store.{put_target_secret, place_self}
use cert_broker.Kube.Laws.{IsLawful}
use cert_broker.Broker.{Broker}
use cert_broker.Naming.{split_namespace, create_name_for_control_cluster}
use cert_broker.Naming.Split.{dot_free, split_namespace-create_name_for_control_cluster}
use cert_broker.Secret.Sync.{
  names_secret, has_ingress_in_target_cluster, managed_labels, copy_of,
  replicate_secret_to_target_cluster, sync_secret, sync_names,
}

-- A TLS entry of the Ingress names the secret.
abbrev pub Names : String → Ingress → Type 0
Names secret_name ing =
    Any (λ (entry : IngressTls). entry.secret_name ≡ secret_name) (elements ing.tls)

names_secret_iff :
    (tls : List IngressTls) (n : String)
    → (names_secret tls n ≡ true) ↔ Any (λ (entry : IngressTls). entry.secret_name ≡ n) tls
unfolding names_secret
names_secret_iff [] n = (λ h. absurd (cc h), λ h. absurd h)
names_secret_iff (entry ∷ tls) n =
    ground (arith, eq_iff entry.secret_name n, names_secret_iff tls n)

-- The test of the nested loops holds exactly if a TLS entry of one of the Ingress resources names
-- the secret.
pub has_ingress_in_target_cluster_iff :
    (ingresses : List Ingress) (n : String)
    → (has_ingress_in_target_cluster ingresses n ≡ true) ↔ Any (Names n) ingresses
unfolding has_ingress_in_target_cluster
has_ingress_in_target_cluster_iff [] n = (λ h. absurd (cc h), λ h. absurd h)
has_ingress_in_target_cluster_iff (ing ∷ ingresses) n =
    ground
      (arith, names_secret_iff (elements ing.tls) n, has_ingress_in_target_cluster_iff ingresses n)

module _ (api : Api) (lawful : IsLawful api) where
  open lawful use {
    view, view-control_secret, view-target_ingresses, view-create_secret, view-create_secret_exists,
    view-update_secret,
  }

  -- If the calls keep the laws and the replication reports no error, then the copy of the secret
  -- stands in the target cluster, whether there was a secret of its name or not, and nothing else
  -- changes.
  pub replicate_effect :
      (x : Secret) (s : Broker api.World)
      → (replicate_secret_to_target_cluster api x s).0 ≡ returned none
      → view (replicate_secret_to_target_cluster api x s).1.world
        ≡ put_target_secret (copy_of x).namespace (copy_of x).name (some (copy_of x)) (view s.world)
  unfolding replicate_secret_to_target_cluster
  replicate_effect x s r =
      let t = copy_of x in
      let post = api.create_secret t.namespace t s.world in
      elim (Option-cases post.0) [
        | inl e ↦ ground (arith, e, view-create_secret t.namespace t s.world e)
        | inr (f, e) ↦ elim (Bool-cases (api.is_already_exists f)) [
          | inr m ↦ absurd (ground (arith, e, m))
          | inl m ↦
              let put = api.update_secret t.namespace t post.1 in
              elim (Option-cases put.0) [
                | inr (g, k) ↦ absurd (ground (arith, e, m, k))
                | inl k ↦ ground (
                  arith,
                  e,
                  m,
                  view-update_secret t.namespace t post.1 k
                      ∙ ap (put_target_secret t.namespace t.name (some t))
                          (view-create_secret_exists t.namespace t s.world e m),
                )
              ]
        ]
      ]

  -- If the calls keep the laws, Sync reads the secret, selects and lists the labelled Ingress
  -- resources of its namespace, and reports no error, then the secret is replicated to the target
  -- cluster if one of these Ingress resources names it, nothing changes otherwise, and nothing else
  -- changes.
  pub sync_names_replication :
      (namespace secret_name : String) (s : Broker api.World) (x : Secret) (selector : api.Selector)
      (ingresses : List Ingress)
      → let read = api.control_secret namespace secret_name s.world in
        let (target_namespace, target_name) = split_namespace secret_name in
        read.0 ≡ ok x
        → api.label_selector managed_labels ≡ ok selector
        → (api.target_ingresses target_namespace selector read.1).0 ≡ ok ingresses
        → (sync_names api namespace secret_name s).0 ≡ returned none
        → view (sync_names api namespace secret_name s).1.world ≡ (
            if has_ingress_in_target_cluster ingresses target_name
            then put_target_secret
                (copy_of x).namespace
                (copy_of x).name
                (some (copy_of x))
                (view s.world)
            else view s.world)
  unfolding sync_names sync_secret
  sync_names_replication namespace secret_name s x selector ingresses found selects listed r =
      let read = api.control_secret namespace secret_name s.world in
      let (target_namespace, target_name) = split_namespace secret_name in
      let list = api.target_ingresses target_namespace selector read.1 in
      let s' : Broker api.World = record s { world = list.1 } in
      let start : view list.1 ≡ view s.world =
        view-target_ingresses target_namespace selector read.1
        ∙ view-control_secret namespace secret_name s.world in
      elim (Bool-cases (has_ingress_in_target_cluster ingresses target_name)) [
        | inl m ↦
            let run : sync_names api namespace secret_name s
                ≡ replicate_secret_to_target_cluster api x s' =
              ground (arith, found, selects, listed, m) in
            rw (run, m)
              (replicate_effect x s' (rw run at r)
                ∙ ap (put_target_secret (copy_of x).namespace (copy_of x).name (some (copy_of x)))
                    start)
        | inr m ↦ rw m (ground (arith, found, selects, listed, m, start))
      ]

  -- If the calls keep the laws, then a secret whose name was created for a secret of the target
  -- cluster, in a namespace without a dot, and whose replication reports no error, stands in the
  -- target cluster under the namespace and the name of that one, with its data.
  pub replicate_in_place :
      (x : Secret) (s : Broker api.World) (namespace name : String)
      → dot_free namespace ≡ true
      → x.name ≡ create_name_for_control_cluster namespace name
      → (replicate_secret_to_target_cluster api x s).0 ≡ returned none
      → (view (replicate_secret_to_target_cluster api x s).1.world).target_secrets namespace name
        ≡ some (record {
          name = name;
          namespace = namespace;
          labels = GoMap.nil;
          annotations = GoMap.nil;
          content = x.content;
        })
  replicate_in_place x s namespace name d e r =
      let named : split_namespace x.name ≡ (namespace, name) =
        ap split_namespace e ∙ split_namespace-create_name_for_control_cluster namespace name d in
      rw (replicate_effect x s r)
        (rw named (place_self (view s.world).target_secrets namespace name _))
