-- ===== src/Ingress/CopyTls/Seen.antt =====
-- pkg/ingress/sync.go: what copyTLS leaves of the state, if a range and an event leave it.
use cert_broker.Base.{String, ◌≡◌, refl, arith, none, some, List, [], ◌∷◌, inl, inr}
use cert_broker.Base.Exec.{Fixes, Outcome-cases}
use cert_broker.Base.Slice.{Slice, elements, append}
use cert_broker.Base.GoMap.{GoMap}
use cert_broker.Kube.{Ingress, IngressTls}
use cert_broker.Kube.Api.{Api}
use cert_broker.Broker.{Broker}
use cert_broker.Ingress.CopyTls.{
  scan_domains, unmanaged_message, conflict_message, keep_entry, copy_hosts, copy_entries, copy_tls,
}
use cert_broker.Ingress.CopyTls.Effects.{Match-cases}

module _ {K : Type 0} (api : Api) (seen : Broker api.World → K)
    (ranges : (m : GoMap) (s : Broker api.World)
      → seen (record s { world = (api.range m s.world).1 }) ≡ seen s)
    (notes : (i : Ingress) (kind reason message : String) (s : Broker api.World)
      → seen (record s { world = (api.record_event i kind reason message s.world).1 })
        ≡ seen s) where
  module _ (domains : GoMap) (ing : Ingress) where
    Fixes-copy_hosts :
        (hosts : List String) (copied : Slice String) (found : String)
        → Fixes seen (copy_hosts api domains ing hosts copied found)
    unfolding copy_hosts
    Fixes-copy_hosts [] copied found s = refl
    Fixes-copy_hosts (host ∷ hosts) copied found s =
        let s' : Broker api.World = record s { world = (api.range domains s.world).1 } in
        let s'' : Broker api.World = record s {
          world =
              (api.record_event ing "Warning" "Certificate" (unmanaged_message host) s'.world).1;
        } in
        let ranged = ranges domains s in
        let noted = λ (m : String). notes ing "Warning" "Certificate" m s' in
        elim (Match-cases (scan_domains (api.range domains s.world).0 host found)) [
          | inl e ↦ ground (arith, e, ranged, noted conflict_message)
          | inr (inl (p, e)) ↦
              ground (arith, e, ranged, Fixes-copy_hosts hosts (append copied host) p s')
          | inr (inr e) ↦ ground (
            arith,
            e,
            ranged,
            noted (unmanaged_message host),
            Fixes-copy_hosts hosts copied found s'',
          )
        ]

    Fixes-copy_entries :
        (tls : List IngressTls) (copied : Slice IngressTls) (found : String)
        → Fixes seen (copy_entries api domains ing tls copied found)
    unfolding copy_entries
    Fixes-copy_entries [] copied found s = refl
    Fixes-copy_entries (entry ∷ tls) copied found s =
        let c = copy_hosts api domains ing (elements entry.hosts) Slice.nil found s in
        let q = Fixes-copy_hosts (elements entry.hosts) Slice.nil found s in
        elim (Outcome-cases c.0) [
          | inl (none, e) ↦ ground (arith, e, q)
          | inl (some (hosts, found'), e) ↦ ground (
            arith,
            e,
            q,
            Fixes-copy_entries tls (keep_entry copied hosts entry.secret_name) found' c.1,
          )
          | inr e ↦ ground (arith, e, q)
        ]

    pub Fixes-copy_tls : Fixes seen (copy_tls api domains ing)
    unfolding copy_tls
    Fixes-copy_tls = Fixes-copy_entries (elements ing.tls) Slice.nil ""
