-- ===== src/Ingress/CopyTls/Refinement.antt =====
-- pkg/ingress/sync.go: copyTLS and the selection.
use cert_broker.Base.{String, ◌==◌, not, ◌&&◌, Option, some, List, [], ◌∷◌}
use cert_broker.Base.{◌≡◌, refl, arith, ◌∙◌, ap, Option-cases, Bool-cases, inl, inr}
use cert_broker.Base.Exec.{returned}
use cert_broker.Base.Slice.{Slice, elements, append}
use cert_broker.Base.Text.{nonempty}
use cert_broker.Base.GoMap.{GoMap}
use cert_broker.Kube.{Ingress, IngressTls}
use cert_broker.Kube.Api.{Api}
use cert_broker.Broker.{Broker}
use cert_broker.Ingress.CopyTls.{
  scan_domains, copy_hosts, copy_entries, copy_tls, keep_entry, unmanaged_message,
}
use cert_broker.Ingress.CopyTls.Selection.{
  find_provider, extend, managed_hosts, providers, selection,
}
use cert_broker.Ingress.CopyTls.Results.{
  judge, judge_conflict, judge_managed, scan_domains-eq_judge, agree, last, hosts_result,
  hosts_result_unmanaged, hosts_result_conflict, hosts_result_managed, hosts_result-agree,
  hosts_result_conflict_all, entries_result, entries_result-agree, entries_result_conflict,
  NonemptyText, entries_result-eq-selection,
}

module _ (api : Api) (domains : GoMap) (ing : Ingress) (provider_of : String → Option String)
    (ranges : (w : api.World) (host : String)
      → find_provider (api.range domains w).0 host ≡ provider_of host) where
  copy_hosts_lem :
      (hosts : List String) (copied : Slice String) (found : String) (s : Broker api.World)
      → ((copy_hosts api domains ing hosts copied found s).0
          ≡ returned (hosts_result provider_of hosts copied found))
        × ((copy_hosts api domains ing hosts copied found s).1.template ≡ s.template)
  unfolding copy_hosts
  copy_hosts_lem [] copied found s = unfold hosts_result in (refl, refl)
  copy_hosts_lem (host ∷ hosts) copied found s =
      let s' : Broker api.World = record s { world = (api.range domains s.world).1 } in
      let s'' : Broker api.World = record s {
        world = (api.record_event ing "Warning" "Certificate" (unmanaged_message host) s'.world).1;
      } in
      let e : scan_domains (api.range domains s.world).0 host found
          ≡ judge (provider_of host) found =
        scan_domains-eq_judge _ host found ∙ ap (λ o. judge o found) (ranges s.world host) in
      elim (Option-cases (provider_of host)) [
        | inl n ↦
            rw (hosts_result_unmanaged provider_of host hosts copied found n)
              (ground (arith, e ∙ ap (λ o. judge o found) n, copy_hosts_lem hosts copied found s''))
        | inr (p, y) ↦ elim (Bool-cases (nonempty found && not (found == p))) [
          | inl c ↦
              rw (hosts_result_conflict provider_of host hosts copied found p y c)
                (ground (arith, e ∙ ap (λ o. judge o found) y ∙ judge_conflict p found c))
          | inr c ↦ rw (hosts_result_managed provider_of host hosts copied found p y c) (
              ground (
                arith,
                e ∙ ap (λ o. judge o found) y ∙ judge_managed p found c,
                copy_hosts_lem hosts (append copied host) p s',
              ))
        ]
      ]

  copy_entries_lem :
      (tls : List IngressTls) (copied : Slice IngressTls) (found : String) (s : Broker api.World)
      → ((copy_entries api domains ing tls copied found s).0
          ≡ returned (entries_result provider_of tls copied found))
        × ((copy_entries api domains ing tls copied found s).1.template ≡ s.template)
  unfolding copy_entries
  copy_entries_lem [] copied found s = unfold entries_result in (refl, refl)
  copy_entries_lem (entry ∷ tls) copied found s =
      let hosts = elements entry.hosts in
      let ps = providers provider_of hosts in
      let h = copy_hosts_lem hosts Slice.nil found s in
      let s' : Broker api.World = (copy_hosts api domains ing hosts Slice.nil found s).1 in
      elim (Bool-cases (agree found ps)) [
        | inl a ↦
            let r = hosts_result-agree provider_of hosts found a in
            rw (entries_result-agree provider_of entry tls copied found a) (
              ground (
                arith,
                h,
                r,
                copy_entries_lem tls
                    (keep_entry copied (extend Slice.nil (managed_hosts provider_of hosts))
                      entry.secret_name)
                    (last found ps) s',
              ))
        | inr a ↦
            rw (entries_result_conflict provider_of entry tls copied found a)
              (ground (arith, h, hosts_result_conflict_all provider_of hosts found a))
      ]

  -- The result is the selection, and the template is left alone.
  pub copy_tls-eq-selection :
      ((host p : String) → provider_of host ≡ some p → NonemptyText p)
      → (s : Broker api.World)
      → ((copy_tls api domains ing s).0 ≡ returned (selection provider_of (elements ing.tls)))
        × ((copy_tls api domains ing s).1.template ≡ s.template)
  unfolding copy_tls
  copy_tls-eq-selection named s =
      let l = copy_entries_lem (elements ing.tls) Slice.nil "" s in
      (l.0 ∙ ap returned (entries_result-eq-selection provider_of named (elements ing.tls)), l.1)
