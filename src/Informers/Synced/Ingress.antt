-- ===== src/Informers/Synced/Ingress.antt =====
-- Sync of pkg/ingress/sync.go through caches.
use cert_broker.Base.{String, Bool, true, List, [], ◌∷◌, ◌≡◌, refl, arith, inl, inr}
use cert_broker.Base.{Bool-cases, Option-cases, Result-cases}
use cert_broker.Base.Exec.{Outcome-cases}
use cert_broker.Base.Slice.{Slice, elements}
use cert_broker.Base.GoMap.{GoMap}
use cert_broker.Kube.{Ingress, IngressTls}
use cert_broker.Kube.Api.{Api}
use cert_broker.Broker.{Broker}
use cert_broker.Ingress.Prefix.{deep_equal}
use cert_broker.Naming.{create_name_for_control_cluster}
use cert_broker.Ingress.CopyTls.{copy_hosts, copy_entries, copy_tls, keep_entry, scan_domains}
use cert_broker.Ingress.CopyTls.Effects.{Match-cases}
use cert_broker.Ingress.Sync.{
  Handler, create_ingress, update_ingress, fill_template, sync_existing,
  clean_up_ingress_and_secrets, sync as sync_ingress,
}
use cert_broker.Informers.{Informer, cached, target_ingresses, control_ingresses}
use cert_broker.Informers.Synced.Cleanup.{clean_up-cached}

module _ (api : Api) (has_synced : Informer → Bool) (missing : api.Error) where
  abbrev through : Api
  through = cached api has_synced missing

  copy_hosts-cached :
      (domains : GoMap) (ing : Ingress) (hosts : List String) (copied : Slice String)
      (found : String) (s : Broker api.World)
      → copy_hosts through domains ing hosts copied found s
        ≡ copy_hosts api domains ing hosts copied found s
  unfolding copy_hosts
  copy_hosts-cached domains ing [] copied found s = refl
  copy_hosts-cached domains ing (host ∷ hosts) copied found s =
      let ih = copy_hosts-cached domains ing hosts in
      elim (Match-cases (scan_domains (api.range domains s.world).0 host found)) [
        | inl e ↦ ground (arith, e)
        | inr (inl (p, e)) ↦ ground (arith, e, ih)
        | inr (inr e) ↦ ground (arith, e, ih)
      ]

  copy_entries-cached :
      (domains : GoMap) (ing : Ingress) (tls : List IngressTls) (copied : Slice IngressTls)
      (found : String) (s : Broker api.World)
      → copy_entries through domains ing tls copied found s
        ≡ copy_entries api domains ing tls copied found s
  unfolding copy_entries
  copy_entries-cached domains ing [] copied found s = refl
  copy_entries-cached domains ing (entry ∷ tls) copied found s =
      let ih = copy_entries-cached domains ing tls in
      let h = copy_hosts-cached domains ing (elements entry.hosts) Slice.nil found s in
      let hosts = copy_hosts api domains ing (elements entry.hosts) Slice.nil found s in
      elim (Outcome-cases hosts.0) [
        | inr e ↦ ground (arith, h, e)
        | inl (r, e) ↦ elim (Option-cases r) [
          | inl n ↦ ground (arith, h, e, n)
          | inr ((c, f), n) ↦
              ground (arith, h, e, n, ih (keep_entry copied c entry.secret_name) f hosts.1)
        ]
      ]

  module _ (h : Handler) where
    create_ingress-cached :
        (name : String) (source : Ingress) (s : Broker api.World)
        → create_ingress through h name source s ≡ create_ingress api h name source s
    unfolding create_ingress copy_tls fill_template
    create_ingress-cached name source s =
        rw
          (copy_entries-cached h.domain_to_dns_provider source (elements source.tls) Slice.nil "" s)
          refl

    update_ingress-cached :
        (target_ing control_ing : Ingress) (s : Broker api.World)
        → update_ingress through h target_ing control_ing s
          ≡ update_ingress api h target_ing control_ing s
    unfolding update_ingress copy_tls
    update_ingress-cached target_ing control_ing s =
        let c =
          copy_entries-cached h.domain_to_dns_provider target_ing (elements target_ing.tls)
            Slice.nil "" s in
        elim (Bool-cases (deep_equal target_ing.tls control_ing.tls target_ing.namespace)) [
          | inl b ↦ rw b refl
          | inr b ↦ rw (b, c) refl
        ]

  module _ (h : Handler) (control : has_synced control_ingresses ≡ true) where
    clean_up_ingress-cached :
        (name : String) (s : Broker api.World)
        → clean_up_ingress_and_secrets through h name s ≡ clean_up_ingress_and_secrets api h name s
    unfolding clean_up_ingress_and_secrets
    clean_up_ingress-cached name s =
        let c = api.control_ingress h.resource_namespace name s.world in
        elim (Result-cases c.0) [
          | inr (f, e) ↦ ground (arith, control, e)
          | inl (i, e) ↦ ground (
            arith,
            control,
            e,
            clean_up-cached api has_synced missing i (record s { world = c.1 }),
          )
        ]

    sync_existing-cached :
        (name : String) (target_ing : Ingress) (s : Broker api.World)
        → sync_existing through h name target_ing s ≡ sync_existing api h name target_ing s
    unfolding sync_existing
    sync_existing-cached name target_ing s =
        let c = api.control_ingress h.resource_namespace name s.world in
        let s' : Broker api.World = record s { world = c.1 } in
        elim (Result-cases c.0) [
          | inr (f, e) ↦ ground (arith, control, e, create_ingress-cached h name target_ing s')
          | inl (i, e) ↦ ground (arith, control, e, update_ingress-cached h target_ing i s')
        ]

    pub sync_ingress-cached :
        has_synced target_ingresses ≡ true
        → (key : String) (s : Broker api.World)
        → sync_ingress through h key s ≡ sync_ingress api h key s
    unfolding sync_ingress cert_broker.Ingress.Sync.sync_names
    sync_ingress-cached target key s = elim (Result-cases (api.split_meta_namespace_key key)) [
      | inr (f, k) ↦ ground (arith, k)
      | inl ((namespace, name), k) ↦
          let t = api.target_ingress namespace name s.world in
          let s' : Broker api.World = record s { world = t.1 } in
          let control_name = create_name_for_control_cluster namespace name in
          elim (Result-cases t.0) [
            | inr (f, e) ↦ ground (arith, k, target, e, clean_up_ingress-cached control_name s')
            | inl (i, e) ↦ ground (arith, k, target, e, sync_existing-cached control_name i s')
          ]
    ]
