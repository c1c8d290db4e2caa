-- ===== src/Ingress/CopyTls/Guarded.antt =====
-- pkg/ingress/sync.go and pkg/utils/controller-helper.go: copyTLS and the clean-up, with calls that
-- keep an invariant.
use cert_broker.Base.{String, ◌≡◌, refl, none, some, List, [], ◌∷◌, inl, inr, arith}
use cert_broker.Base.{Option-cases}
use cert_broker.Base.Exec.{Exec, IsSafe, returned}
use cert_broker.Base.Slice.{Slice, elements, append}
use cert_broker.Base.GoMap.{GoMap}
use cert_broker.Kube.{Ingress, IngressTls}
use cert_broker.Kube.Api.{Api}
use cert_broker.Kube.Guarded.{IsGuarded}
use cert_broker.Broker.{Broker}
use cert_broker.Cleanup.{blocking, delete_tls_secrets, clean_up_ingress_and_tls_secrets}
use cert_broker.Ingress.CopyTls.{
  scan_domains, unmanaged_message, conflict_message, keep_entry, copy_hosts, copy_entries, copy_tls,
}
use cert_broker.Ingress.CopyTls.Effects.{Match-cases}

module _ (api : Api) (Inv : api.World → Type 0) (g : IsGuarded api Inv) where
  abbrev pub Safe : {A : Type 0} → Exec (Broker api.World) A → Type 0
  Safe m = IsSafe (λ (s : Broker api.World). Inv s.world) m

  Safe-delete_tls_secrets :
      (namespace : String) (tls : List IngressTls) → Safe (delete_tls_secrets api namespace tls)
  unfolding delete_tls_secrets
  Safe-delete_tls_secrets namespace [] s inv = (none, refl, inv)
  Safe-delete_tls_secrets namespace (entry ∷ tls) s inv =
      let done = api.delete_secret namespace entry.secret_name s.world in
      let inv' = g.keeps-delete_secret namespace entry.secret_name s.world inv in
      elim (Option-cases (blocking api done.0)) [
        | inl e ↦ rw e (Safe-delete_tls_secrets namespace tls (record s { world = done.1 }) inv')
        | inr (x, e) ↦ rw e (some x, refl, inv')
      ]

  pub Safe-clean_up : (i : Ingress) → Safe (clean_up_ingress_and_tls_secrets api i)
  unfolding clean_up_ingress_and_tls_secrets
  Safe-clean_up i s inv =
      let done = api.delete_ingress i.namespace i.name s.world in
      let inv' = g.keeps-delete_ingress i.namespace i.name s.world inv in
      elim (Option-cases (blocking api done.0)) [
        | inl e ↦ rw e (
            Safe-delete_tls_secrets i.namespace (elements i.tls) (record s { world = done.1 }) inv')
        | inr (x, e) ↦ rw e (some x, refl, inv')
      ]

  module _ (domains : GoMap) (ing : Ingress) where
    Safe-copy_hosts :
        (hosts : List String) (copied : Slice String) (found : String)
        → Safe (copy_hosts api domains ing hosts copied found)
    unfolding copy_hosts
    Safe-copy_hosts [] copied found s inv = (some (copied, found), refl, inv)
    Safe-copy_hosts (host ∷ hosts) copied found s inv =
        let now = copy_hosts api domains ing (host ∷ hosts) copied found s in
        let read = api.range domains s.world in
        let ranged = g.keeps-range domains s.world inv in
        let warned =
          λ (message : String). (api.record_event ing "Warning" "Certificate" message read.1).1 in
        let keeps = λ (message : String).
          g.keeps-record_event ing "Warning" "Certificate" message read.1 ranged in
        elim (Match-cases (scan_domains read.0 host found)) [
          | inl e ↦
              let run : now ≡ (returned none, record s { world = warned conflict_message }) =
                ground (arith, e) in
              rw run (none, refl, keeps conflict_message)
          | inr (inl (p, e)) ↦
              let s' : Broker api.World = record s { world = read.1 } in
              let run : now ≡ copy_hosts api domains ing hosts (append copied host) p s' =
                ground (arith, e) in
              rw run (Safe-copy_hosts hosts (append copied host) p s' ranged)
          | inr (inr e) ↦
              let s' : Broker api.World = record s { world = warned (unmanaged_message host) } in
              let run : now ≡ copy_hosts api domains ing hosts copied found s' =
                ground (arith, e) in
              rw run (Safe-copy_hosts hosts copied found s' (keeps (unmanaged_message host)))
        ]

    Safe-copy_entries :
        (tls : List IngressTls) (copied : Slice IngressTls) (found : String)
        → Safe (copy_entries api domains ing tls copied found)
    unfolding copy_entries
    Safe-copy_entries [] copied found s inv = ((copied, found), refl, inv)
    Safe-copy_entries (entry ∷ tls) copied found s inv =
        let s' = (copy_hosts api domains ing (elements entry.hosts) Slice.nil found s).1 in
        let (hosts, e, inv') = Safe-copy_hosts (elements entry.hosts) Slice.nil found s inv in
        rw e (elim (Option-cases hosts) [
          | inl d ↦ rw d ((Slice.nil, ""), refl, inv')
          | inr ((hosts, found'), d) ↦
              rw d
                (Safe-copy_entries tls (keep_entry copied hosts entry.secret_name) found' s' inv')
        ])

    pub Safe-copy_tls : Safe (copy_tls api domains ing)
    unfolding copy_tls
    Safe-copy_tls = Safe-copy_entries (elements ing.tls) Slice.nil ""
