-- ===== src/Turns/Certificate.antt =====
-- From the TLS section of an Ingress of the target cluster to the secret with its certificate there.
use cert_broker.Base.{
  String, true, ◌≡◌, ◌∙◌, refl, ap, none, some, List, [], ◌∷◌, Any, ok, inl, inr,
}
use cert_broker.Base.Exec.{returned}
use cert_broker.Base.Slice.{elements}
use cert_broker.Base.GoMap.{GoMap}
use cert_broker.Kube.{Ingress, IngressTls, Secret}
use cert_broker.Kube.Api.{Api}
use cert_broker.Kube.Annotated.{AllAnnotated}
use cert_broker.Kube.Store.{Store, place_self}
use cert_broker.Kube.Laws.{IsLawful, IsFresh}
use cert_broker.Kube.Reliable.{IsReliable}
use cert_broker.Broker.{Broker}
use cert_broker.Naming.{create_name_for_control_cluster}
use cert_broker.Naming.Split.{dot_free, split_namespace-create_name_for_control_cluster}
use cert_broker.Template.{create_control_ingress}
use cert_broker.Ingress.Prefix.{prefix_entries, prefix_with_namespace}
use cert_broker.Ingress.CopyTls.Order.{IsWellConfigured, provider_of}
use cert_broker.Ingress.Sync.{Handler, sync as sync_ingress}
use cert_broker.Ingress.Sync.Convergence.{selection-managed}
use cert_broker.Ingress.Sync.Settled.{IsManageable, copy, sync-copied}
use cert_broker.Secret.Sync.{managed_labels, has_ingress_in_target_cluster, sync as sync_secret}
use cert_broker.Secret.Sync.Effects.{Names, has_ingress_in_target_cluster_iff}
use cert_broker.Secret.Sync.Totality.{sync-replicates}

-- The entry asks for the hosts of another one, in the secret of its name.
abbrev pub Requests : String → IngressTls → IngressTls → Type 0
Requests namespace entry e =
    (e.hosts ≡ entry.hosts)
    × (e.secret_name ≡ create_name_for_control_cluster namespace entry.secret_name)

Requests-prefixed :
    (namespace : String) (entry : IngressTls) (tls : List IngressTls)
    → Any (λ e. e ≡ entry) tls
    → Any (Requests namespace entry) (prefix_entries namespace tls)
Requests-prefixed namespace entry [] h = absurd h
Requests-prefixed namespace entry (e ∷ tls) (inl h) = inl (rw h (refl, refl))
Requests-prefixed namespace entry (e ∷ tls) (inr h) = inr (Requests-prefixed namespace entry tls h)

module _ (api : Api) (lawful : IsLawful api) (fresh : IsFresh api lawful)
    (reliable : IsReliable api) (h : Handler) (fit : IsWellConfigured api h.domain_to_dns_provider)
    (i : Ingress) (entry : IngressTls) (member : Any (λ e. e ≡ entry) (elements i.tls))
    (plain : dot_free i.namespace ≡ true) where
  open lawful use {view}

  names :
      (tls : List IngressTls)
      → Any (λ e. e ≡ entry) tls
      → Any (λ (e : IngressTls). e.secret_name ≡ entry.secret_name) tls
  names [] m = absurd m
  names (e ∷ tls) (inl m) = inl (ap (λ (x : IngressTls). x.secret_name) m)
  names (e ∷ tls) (inr m) = inr (names tls m)

  -- The Ingress is among those listed, and names its secrets.
  Names-listed :
      (ingresses : List Ingress)
      → Any (λ j. j ≡ i) ingresses
      → Any (Names entry.secret_name) ingresses
  Names-listed [] m = absurd m
  Names-listed (j ∷ l) (inl m) = inl (rw m (names (elements i.tls) member))
  Names-listed (j ∷ l) (inr m) = inr (Names-listed l m)

  -- The copy asks for the secret.
  requested :
      (key : String) (s : Broker api.World)
      → api.split_meta_namespace_key key ≡ ok (i.namespace, i.name)
      → AllAnnotated lawful s
      → let cn = create_name_for_control_cluster i.namespace i.name in
        (view s.world).target_ingresses i.namespace i.name ≡ some i
        → (view s.world).control_ingresses h.resource_namespace cn ≡ none
        → IsManageable h i
        → (c : Ingress) × ((view (sync_ingress api h key s).1.world).control_ingresses
              h.resource_namespace cn
            ≡ some c)
          × Any (Requests i.namespace entry) (elements c.tls)
  unfolding create_control_ingress prefix_with_namespace
  requested key s split all found missing fits =
      let cn = create_name_for_control_cluster i.namespace i.name in
      let c = copy h s.template cn i fits in
      let first =
        sync-copied api lawful fresh reliable h fit key i.namespace i.name i s split
          (all h.resource_namespace) found missing fits in
      let whole =
        selection-managed (provider_of h.domain_to_dns_provider) (elements i.tls) fits.whole
          fits.one_provider fits.some_entry in
      (
        c,
        ap (λ (x : Store). x.control_ingresses h.resource_namespace cn) first
            ∙ place_self (view s.world).control_ingresses h.resource_namespace cn (some c),
        rw whole (Requests-prefixed i.namespace entry (elements i.tls) member),
      )

  -- If the calls keep the laws, the caches are fresh, the clusters fail for what is missing or
  -- there already alone, the domains are well configured, no copy has nil annotations, an Ingress
  -- without a copy stands in the target cluster, in a namespace without a dot, every TLS entry of
  -- it has hosts, all managed by one provider, and the keys split into their names, then Sync of
  -- the Ingress leaves a copy with an entry for the hosts of any of these entries, and, in any
  -- later state in which the secret that this entry names is read and the Ingress is listed, Sync
  -- of that secret returns without an error and leaves its data in the target cluster, in the
  -- namespace of the Ingress and under the name of the first entry.
  pub certificate-returned :
      (key secret_key secret_namespace : String) (s s' : Broker api.World) (x : Secret)
      (selector : api.Selector) (ingresses : List Ingress)
      → api.split_meta_namespace_key key ≡ ok (i.namespace, i.name)
      → AllAnnotated lawful s
      → let cn = create_name_for_control_cluster i.namespace i.name in
        let secret_name = create_name_for_control_cluster i.namespace entry.secret_name in
        let read = api.control_secret secret_namespace secret_name s'.world in
        (view s.world).target_ingresses i.namespace i.name ≡ some i
        → (view s.world).control_ingresses h.resource_namespace cn ≡ none
        → IsManageable h i
        → api.split_meta_namespace_key secret_key ≡ ok (secret_namespace, secret_name)
        → read.0 ≡ ok x
        → x.name ≡ secret_name
        → api.label_selector managed_labels ≡ ok selector
        → (api.target_ingresses i.namespace selector read.1).0 ≡ ok ingresses
        → Any (λ j. j ≡ i) ingresses
        → ((c : Ingress) × ((view (sync_ingress api h key s).1.world).control_ingresses
                h.resource_namespace cn
              ≡ some c)
            × Any (Requests i.namespace entry) (elements c.tls))
          × ((sync_secret api secret_key s').0 ≡ returned none)
          × ((view (sync_secret api secret_key s').1.world).target_secrets i.namespace
                entry.secret_name
              ≡ some (record {
                name = entry.secret_name;
                namespace = i.namespace;
                labels = GoMap.nil;
                annotations = GoMap.nil;
                content = x.content;
              }))
  certificate-returned key secret_key secret_namespace s s' x selector ingresses split all found
        missing fits secret_split read named selects listed there =
      let secret_name = create_name_for_control_cluster i.namespace entry.secret_name in
      let back =
        split_namespace-create_name_for_control_cluster i.namespace entry.secret_name plain in
      let (done, e) =
        sync-replicates api reliable lawful secret_key secret_namespace secret_name s' x selector
          ingresses secret_split read selects (rw back listed) in
      let has : has_ingress_in_target_cluster ingresses entry.secret_name ≡ true =
        (has_ingress_in_target_cluster_iff ingresses entry.secret_name).1
          (Names-listed ingresses there) in
      (
        requested key s split all found missing fits,
        done,
        rw (e, named, back, has)
            (place_self (view s'.world).target_secrets i.namespace entry.secret_name _),
      )
