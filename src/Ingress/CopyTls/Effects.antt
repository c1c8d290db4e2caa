-- ===== src/Ingress/CopyTls/Effects.antt =====
-- pkg/ingress/sync.go: what copyTLS writes.
use cert_broker.Base.{String, ◌≡◌, refl, ◌∙◌, ap, arith, none, some, List, [], ◌∷◌, inl, inr, ◌⊎◌}
use cert_broker.Base.Exec.{Outcome-cases}
use cert_broker.Base.Slice.{Slice, elements, append}
use cert_broker.Base.GoMap.{GoMap}
use cert_broker.Kube.{Ingress, IngressTls}
use cert_broker.Kube.Api.{Api}
use cert_broker.Kube.Store.{Store}
use cert_broker.Kube.Laws.{IsLawful}
use cert_broker.Broker.{Broker}
use cert_broker.Ingress.CopyTls.{
  Match, conflict, managed, unmanaged, scan_domains, copy_hosts, copy_entries, copy_tls, keep_entry,
  unmanaged_message, conflict_message,
}

-- The tables, without the events that were recorded.
abbrev pub quiet : Store → Store
quiet s = record s { notices = [] }

pub Match-cases :
    (m : Match) → (m ≡ conflict) ⊎ (((p : String) × (m ≡ managed p)) ⊎ (m ≡ unmanaged))
Match-cases conflict = inl refl
Match-cases (managed p) = inr (inl (p, refl))
Match-cases unmanaged = inr (inr refl)

module _ (api : Api) (lawful : IsLawful api) (domains : GoMap) (ing : Ingress) where
  open lawful use {view, view-range, view-record_event}

  warned :
      (message : String) (w : api.World)
      → quiet (view (api.record_event ing "Warning" "Certificate" message w).1) ≡ quiet (view w)
  warned message w = ap quiet (view-record_event ing "Warning" "Certificate" message w)

  quiet-copy_hosts :
      (hosts : List String) (copied : Slice String) (found : String) (s : Broker api.World)
      → quiet (view (copy_hosts api domains ing hosts copied found s).1.world)
        ≡ quiet (view s.world)
  unfolding copy_hosts
  quiet-copy_hosts [] copied found s = refl
  quiet-copy_hosts (host ∷ hosts) copied found s =
      let s' : Broker api.World = record s { world = (api.range domains s.world).1 } in
      let s'' : Broker api.World = record s {
        world = (api.record_event ing "Warning" "Certificate" (unmanaged_message host) s'.world).1;
      } in
      let r : quiet (view s'.world) ≡ quiet (view s.world) =
        ap quiet (view-range domains s.world) in
      elim (Match-cases (scan_domains (api.range domains s.world).0 host found)) [
        | inl e ↦ ground (arith, e, warned conflict_message s'.world ∙ r)
        | inr (inl (p, e)) ↦ ground (arith, e, quiet-copy_hosts hosts (append copied host) p s' ∙ r)
        | inr (inr e) ↦ ground (
          arith,
          e,
          quiet-copy_hosts hosts copied found s'' ∙ warned (unmanaged_message host) s'.world ∙ r,
        )
      ]

  quiet-copy_entries :
      (tls : List IngressTls) (copied : Slice IngressTls) (found : String) (s : Broker api.World)
      → quiet (view (copy_entries api domains ing tls copied found s).1.world)
        ≡ quiet (view s.world)
  unfolding copy_entries
  quiet-copy_entries [] copied found s = refl
  quiet-copy_entries (entry ∷ tls) copied found s =
      let c = copy_hosts api domains ing (elements entry.hosts) Slice.nil found s in
      let q = quiet-copy_hosts (elements entry.hosts) Slice.nil found s in
      elim (Outcome-cases c.0) [
        | inl (none, e) ↦ ground (arith, e, q)
        | inl (some (hosts, found'), e) ↦ ground (
          arith,
          e,
          quiet-copy_entries tls (keep_entry copied hosts entry.secret_name) found' c.1 ∙ q,
        )
        | inr e ↦ ground (arith, e, q)
      ]

  -- If the calls keep the laws, then copyTLS changes nothing in the tables of both clusters but the
  -- events recorded, on every path.
  pub quiet-copy_tls :
      (s : Broker api.World)
      → quiet (view (copy_tls api domains ing s).1.world) ≡ quiet (view s.world)
  unfolding copy_tls
  quiet-copy_tls s = quiet-copy_entries (elements ing.tls) Slice.nil "" s
