-- ===== src/Turns/Mirror/Runs.antt =====
-- The runs for a list of Ingress resources without copies.
use cert_broker.Base.{String, ◌≡◌, ◌≢◌, ◌⊎◌, refl, ◌∙◌, sym, ap, none, some, [], ◌∷◌, All, Any}
use cert_broker.Kube.{Ingress}
use cert_broker.Kube.Api.{Api}
use cert_broker.Kube.Annotated.{AllAnnotated}
use cert_broker.Kube.Store.{Store, Table, place_other, put_control_ingress}
use cert_broker.Kube.Laws.{IsLawful, IsFresh}
use cert_broker.Kube.Reliable.{IsReliable}
use cert_broker.Broker.{Broker}
use cert_broker.Template.{IngressTemplate, create_ingress_template, create_control_ingress}
use cert_broker.Ingress.CopyTls.Effects.{quiet}
use cert_broker.Ingress.CopyTls.Order.{IsWellConfigured}
use cert_broker.Ingress.Sync.{Handler, sync}
use cert_broker.Ingress.Sync.Annotated.{IsSafe-sync}
use cert_broker.Ingress.Sync.Configured.{Fixed-sync_ingress}
use cert_broker.Ingress.Sync.Settled.{sync-copied}
use cert_broker.Ingress.Sync.Totality.{sync-total}
use cert_broker.Base.Exec.{returned}
use cert_broker.Turns.Order.{IsNew, names, names-differ}
use cert_broker.Turns.Mirror.{
  Work, sync_all, AllDifferent, copy_name, mirror_of, mirrored, Apart, AllApart, mirrored-elsewhere,
  mirrored-All,
}

module _ (api : Api) (lawful : IsLawful api) (fresh : IsFresh api lawful)
    (reliable : IsReliable api) (h : Handler)
    (fit : IsWellConfigured api h.domain_to_dns_provider) where
  open lawful use {view}

  abbrev pub AllNew : Broker api.World → Work → Type 0
  AllNew s work =
      All (λ (p : String × Ingress). IsNew api lawful fresh reliable h fit s p.0 p.1) work

  -- The copies of the other Ingress resources are still missing after a run for one.
  AllNew-sync :
      (s : Broker api.World) (key : String) (i : Ingress) (work : Work)
      → AllAnnotated lawful s
      → (new : IsNew api lawful fresh reliable h fit s key i)
      → All (λ (p : String × Ingress). names i ≢ names p.1) work
      → AllNew s work
      → AllNew (sync api h key s).1 work × All (Apart h s.template (copy_name i)) work
  AllNew-sync s key i [] all new differ news = (tt, tt)
  AllNew-sync s key i ((k, j) ∷ work) all new (d, differ) (new', news) =
      let first =
        sync-copied api lawful fresh reliable h fit key i.namespace i.name i s new.split
          (all h.resource_namespace) new.found new.missing new.fits in
      let ij = names-differ api lawful fresh reliable h fit i j new.plain new'.plain d in
      let ji =
        names-differ api lawful fresh reliable h fit j i new'.plain new.plain (λ e. d (sym e)) in
      let (news', far) = AllNew-sync s key i work all new differ news in
      (
        (
          record {
            split = new'.split;
            found = ap (λ (x : Store). x.target_ingresses j.namespace j.name) first ∙ new'.found;
            missing =
                ap (λ (x : Store). x.control_ingresses h.resource_namespace (copy_name j)) first
                ∙ place_other (view s.world).control_ingresses h.resource_namespace (copy_name i)
                    (copy_name j) _ ij
                ∙ new'.missing;
            fits = new'.fits;
            plain = new'.plain;
          },
          news',
        ),
        (ji, far),
      )

  -- The template as it was made, with no provider yet.
  abbrev pub fresh_template : Broker api.World → IngressTemplate
  fresh_template s = create_ingress_template s.template.issuer_name s.template.challenge_type

  fresh_template-sync :
      (s : Broker api.World) (key : String) → fresh_template (sync api h key s).1 ≡ fresh_template s
  fresh_template-sync s key =
      ap (λ (c : String × String). create_ingress_template c.0 c.1) (Fixed-sync_ingress api h key s)

  -- The tables after one run.
  sync-mirrored :
      (s : Broker api.World) (key : String) (i : Ingress)
      → AllAnnotated lawful s
      → IsNew api lawful fresh reliable h fit s key i
      → quiet (view (sync api h key s).1.world)
        ≡ put_control_ingress h.resource_namespace
            (copy_name i)
            (some (mirror_of h (fresh_template s) i))
            (quiet (view s.world))
  unfolding create_control_ingress create_ingress_template
  sync-mirrored s key i all new =
      sync-copied api lawful fresh reliable h fit key i.namespace i.name i s new.split
        (all h.resource_namespace) new.found new.missing new.fits

  abbrev with_copies : Broker api.World → Table Ingress → Store
  with_copies s table = record (quiet (view s.world)) { control_ingresses = table }

  sync_all-mirrored :
      (s : Broker api.World) (work : Work)
      → AllAnnotated lawful s
      → AllNew s work
      → AllDifferent work
      → quiet (view (sync_all api h work s).world)
        ≡ with_copies s (mirrored h (fresh_template s) work (view s.world).control_ingresses)
  sync_all-mirrored s [] all news differ = refl
  sync_all-mirrored s ((key, i) ∷ work) all (new, news) (d, differ) =
      let s1 = (sync api h key s).1 in
      let first = sync-mirrored s key i all new in
      let (news1, far) = AllNew-sync s key i work all new d news in
      let all1 = (IsSafe-sync api lawful fresh reliable h key s all).2 in
      sync_all-mirrored s1 work all1 news1 differ
      ∙ ap (λ t. with_copies s1 (mirrored h t work (view s1.world).control_ingresses))
          (fresh_template-sync s key)
      ∙ ap
          (λ (st : Store). record st {
            control_ingresses = mirrored h (fresh_template s) work st.control_ingresses;
          })
          first

  AllApart-names :
      (s : Broker api.World) (work : Work)
      → AllAnnotated lawful s
      → AllNew s work
      → AllDifferent work
      → AllApart h (fresh_template s) work
  AllApart-names s [] all news differ = tt
  AllApart-names s ((key, i) ∷ work) all (new, news) (d, differ) =
      ((AllNew-sync s key i work all new d news).1, AllApart-names s work all news differ)

  -- No run fails.
  abbrev pub AllSucceed : Broker api.World → Work → Type 0
  AllSucceed s [] = Unit {0}
  AllSucceed s ((key, i) ∷ work) =
      ((sync api h key s).0 ≡ returned none) × AllSucceed (sync api h key s).1 work

  AllSucceed-sync :
      (s : Broker api.World) (work : Work)
      → AllAnnotated lawful s
      → AllNew s work
      → AllDifferent work
      → AllSucceed s work
  AllSucceed-sync s [] all news differ = tt
  AllSucceed-sync s ((key, i) ∷ work) all (new, news) (d, differ) = (
    (sync-total api lawful fresh reliable h fit key i.namespace i.name s new.split
        (all h.resource_namespace)).0,
    AllSucceed-sync (sync api h key s).1 work (IsSafe-sync api lawful fresh reliable h key s all).2
        (AllNew-sync s key i work all new d news).0 differ,
  )

  -- If the calls keep the laws, the caches are fresh, the clusters fail for what is missing or
  -- there already alone, the domains are well configured, no copy has nil annotations, and the
  -- Ingress resources of a list, which differ in namespace or name, in namespaces without a dot,
  -- stand in the target cluster, have no copy and TLS entries with hosts, each all managed by one
  -- provider, and keys that split into their names, then after Sync of the keys, in the order of
  -- the list, no run has failed, each Ingress has the copy under its name that a template without a
  -- provider yields, every other entry for an Ingress of the control cluster is as before, and so
  -- is the rest of the tables, events aside.
  pub sync_all-mirrors :
      (s : Broker api.World) (work : Work)
      → AllAnnotated lawful s
      → AllNew s work
      → AllDifferent work
      → let after = view (sync_all api h work s).world in
        let copies = after.control_ingresses in
        AllSucceed s work
        × All
            (λ (p : String × Ingress).
              copies h.resource_namespace (copy_name p.1)
              ≡ some (mirror_of h (fresh_template s) p.1))
            work
        × ((ns name : String)
            → Any
                (λ (p : String × Ingress). (ns ≡ h.resource_namespace) × (name ≡ copy_name p.1))
                work
              ⊎ (copies ns name ≡ (view s.world).control_ingresses ns name))
        × (quiet after ≡ record (quiet (view s.world)) { control_ingresses = copies })
  sync_all-mirrors s work all news differ =
      let t = fresh_template s in
      let before = (view s.world).control_ingresses in
      let done = sync_all-mirrored s work all news differ in
      let table = ap (λ (st : Store). st.control_ingresses) done in
      (
        AllSucceed-sync s work all news differ,
        rw table (mirrored-All h t work before (AllApart-names s work all news differ)),
        (λ ns name. rw table (mirrored-elsewhere h t work ns name before)),
        done ∙ ap (with_copies s) (sym table),
      )
