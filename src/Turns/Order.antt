-- ===== src/Turns/Order.antt =====
-- Two keys of the Ingress controller, in either order.
use cert_broker.Base.{
  String, ◌==◌, true, false, ◌≡◌, ◌≢◌, ◌∙◌, sym, ap, none, some, ok, eq_iff, Bool-cases, inl, inr,
}
use mathlib.Core.Path.{fun_ext}
use cert_broker.Kube.{Ingress}
use cert_broker.Kube.Api.{Api}
use cert_broker.Kube.Annotated.{AllAnnotated}
use cert_broker.Kube.Store.{Store, Table, place_comm, place_other, put_control_ingress}
use cert_broker.Kube.Laws.{IsLawful, IsFresh}
use cert_broker.Kube.Reliable.{IsReliable}
use cert_broker.Broker.{Broker}
use cert_broker.Naming.{create_name_for_control_cluster, split_namespace}
use cert_broker.Naming.Split.{dot_free, split_namespace-create_name_for_control_cluster}
use cert_broker.Template.{create_control_ingress}
use cert_broker.Ingress.CopyTls.Effects.{quiet}
use cert_broker.Ingress.CopyTls.Order.{IsWellConfigured}
use cert_broker.Ingress.Sync.{Handler, sync}
use cert_broker.Ingress.Sync.Annotated.{IsSafe-sync}
use cert_broker.Ingress.Sync.Configured.{configured, Fixed-sync_ingress}
use cert_broker.Ingress.Sync.Settled.{IsManageable, copy, sync-copied}

abbrev pub names : Ingress → String × String
names i = (i.namespace, i.name)

module _ (api : Api) (lawful : IsLawful api) (fresh : IsFresh api lawful)
    (reliable : IsReliable api) (h : Handler)
    (fit : IsWellConfigured api h.domain_to_dns_provider) where
  open lawful use {view}

  abbrev pub name_of : Ingress → String
  name_of i = create_name_for_control_cluster i.namespace i.name

  -- What Sync of an Ingress finds if there is no copy of it.
  pub record IsNew (s : Broker api.World) (key : String) (i : Ingress) : Type 0 where
    pub split : api.split_meta_namespace_key key ≡ ok (i.namespace, i.name)
    pub found : (view s.world).target_ingresses i.namespace i.name ≡ some i
    pub missing : (view s.world).control_ingresses h.resource_namespace (name_of i) ≡ none
    pub fits : IsManageable h i
    pub plain : dot_free i.namespace ≡ true

  -- The copy is the same for templates of one issuer and challenge type.
  pub copy-configured :
      (s s' : Broker api.World) (i : Ingress) (fits : IsManageable h i)
      → configured s' ≡ configured s
      → copy h s'.template (name_of i) i fits ≡ copy h s.template (name_of i) i fits
  unfolding create_control_ingress
  copy-configured s s' i fits e =
      ap
        (λ (p : String × String).
          copy h (record { issuer_name = p.0; challenge_type = p.1; dns01_provider = "" })
            (name_of i) i fits)
        e

  pub names-differ :
      (i j : Ingress)
      → dot_free i.namespace ≡ true
      → dot_free j.namespace ≡ true
      → names i ≢ names j
      → (name_of i == name_of j) ≡ false
  names-differ i j p q d = elim (Bool-cases (name_of i == name_of j)) [
    | inr e ↦ e
    | inl e ↦
        let same : name_of i ≡ name_of j = (eq_iff (name_of i) (name_of j)).0 e in
        absurd (
          d (
            sym (split_namespace-create_name_for_control_cluster i.namespace i.name p)
            ∙ ap split_namespace same
            ∙ split_namespace-create_name_for_control_cluster j.namespace j.name q))
  ]

  -- The tables after two runs.
  two :
      (s : Broker api.World) (key key' : String) (i j : Ingress)
      → AllAnnotated lawful s
      → (new : IsNew s key i) (new' : IsNew s key' j) → (name_of i == name_of j) ≡ false
      → quiet (view (sync api h key' (sync api h key s).1).1.world)
        ≡ put_control_ingress h.resource_namespace
            (name_of j)
            (some (copy h s.template (name_of j) j new'.fits))
            (put_control_ingress h.resource_namespace
              (name_of i)
              (some (copy h s.template (name_of i) i new.fits))
              (quiet (view s.world)))
  two s key key' i j all new new' d =
      let s1 = (sync api h key s).1 in
      let first =
        sync-copied api lawful fresh reliable h fit key i.namespace i.name i s new.split
          (all h.resource_namespace) new.found new.missing new.fits in
      let all1 = (IsSafe-sync api lawful fresh reliable h key s all).2 in
      let found = ap (λ (x : Store). x.target_ingresses j.namespace j.name) first ∙ new'.found in
      let missing =
        ap (λ (x : Store). x.control_ingresses h.resource_namespace (name_of j)) first
        ∙ place_other (view s.world).control_ingresses h.resource_namespace (name_of i) (name_of j)
            _ d
        ∙ new'.missing in
      let second =
        sync-copied api lawful fresh reliable h fit key' j.namespace j.name j s1 new'.split
          (all1 h.resource_namespace) found missing new'.fits in
      second
      ∙ ap
          (λ c.
            put_control_ingress h.resource_namespace (name_of j) (some c) (quiet (view s1.world)))
          (copy-configured s s1 j new'.fits (Fixed-sync_ingress api h key s))
      ∙ ap
          (put_control_ingress h.resource_namespace (name_of j)
            (some (copy h s.template (name_of j) j new'.fits)))
          first

  -- If the calls keep the laws, the caches are fresh, the clusters fail for what is missing or
  -- there already alone, the domains are well configured, no copy has nil annotations, and two
  -- Ingress resources of the target cluster, which differ in namespace or name, in namespaces
  -- without a dot, have no copy and TLS entries with hosts, each all managed by one provider, then
  -- Sync of their keys leaves the same tables in either order, events aside.
  pub sync-commutes :
      (s : Broker api.World) (key key' : String) (i j : Ingress)
      → AllAnnotated lawful s
      → IsNew s key i
      → IsNew s key' j
      → names i ≢ names j
      → quiet (view (sync api h key' (sync api h key s).1).1.world)
        ≡ quiet (view (sync api h key (sync api h key' s).1).1.world)
  sync-commutes s key key' i j all new new' d =
      let st = quiet (view s.world) in
      let a = some (copy h s.template (name_of i) i new.fits) in
      let b = some (copy h s.template (name_of j) j new'.fits) in
      let ij = names-differ i j new.plain new'.plain d in
      let ji = names-differ j i new'.plain new.plain (λ e. d (sym e)) in
      let tables = fun_ext (λ ns. fun_ext (λ n.
        place_comm (view s.world).control_ingresses h.resource_namespace (name_of i) (name_of j) a b
          ij ns n)) in
      two s key key' i j all new new' ij
      ∙ ap (λ (t : Table Ingress). record st { control_ingresses = t }) tables
      ∙ sym (two s key' key j i all new' new ji)
