-- ===== src/Ingress/CopyTls.antt =====
-- pkg/ingress/sync.go: copyTLS, the hosts of the TLS section whose domain is managed, and the DNS
-- provider of these domains.
pub mod Selection
mod Results
pub mod Refinement
pub mod Order
pub mod Effects
pub mod Guarded
pub mod Seen
use Prim.Native.String.{◌++◌ as ◌<>◌}
use cert_broker.Base.{String, ◌==◌, not, ◌&&◌, Option, none, some, List, [], ◌∷◌, if◌then◌else◌}
use cert_broker.Base.Exec.{Exec, pure, ◌>>=◌, ◌>>◌}
use cert_broker.Base.Slice.{Slice, elements, append}
use cert_broker.Base.GoMap.{GoMap, Pairs}
use cert_broker.Base.Text.{nonempty, has_suffix}
use cert_broker.Kube.{Ingress, IngressTls}
use cert_broker.Kube.Api.{Api}
use cert_broker.Broker.{Broker, outside}

-- What the loop over the managed domains finds for a host.
pub data Match : Type 0 where
  conflict : Match
  managed : String → Match
  unmanaged : Match

-- The loop, over the entries in the order of the range; `found` is foundProvider.
unfoldable pub scan_domains : Pairs → String → String → Match
scan_domains [] host found = unmanaged
scan_domains ((domain, provider) ∷ domains) host found =
    let rest = scan_domains domains host found in
    if has_suffix host domain
    then (if nonempty found && not (found == provider) then conflict else managed provider)
    else rest

abbrev pub conflict_message : String
conflict_message =
    "Certificate cannot be requested because configured domains must be managed by exactly one provider."

unfoldable pub unmanaged_message : String → String
unmanaged_message host = "Domain " <> (host <> " is not managed and thus ignored by Cert-Broker")

-- The end of the loop body: an entry of which no host is left is not appended.
abbrev pub keep_entry : Slice IngressTls → Slice String → String → Slice IngressTls
keep_entry copied hosts secret_name = elim (elements hosts) [
  | [] ↦ copied
  | _ ∷ _ ↦ append copied (record { hosts = hosts; secret_name = secret_name })
]

module _ (api : Api) (domains : GoMap) (ing : Ingress) where
  open api use {World, range, record_event}

  abbrev pub warn : String → Exec (Broker World) (Unit {0})
  warn message = outside (record_event ing "Warning" "Certificate" message)

  -- The loop over the hosts of one entry. `none` is the return from within the loop.
  unfoldable pub copy_hosts :
      List String → Slice String → String → Exec (Broker World) (Option (Slice String × String))
  copy_hosts [] copied found = pure (some (copied, found))
  copy_hosts (host ∷ hosts) copied found = do
    entries ← outside (range domains)
    elim (scan_domains entries host found) [
      | conflict ↦ do warn conflict_message; pure none
      | managed provider ↦ copy_hosts hosts (append copied host) provider
      | unmanaged ↦ do warn (unmanaged_message host); copy_hosts hosts copied found
    ]

  -- The loop over the TLS entries.
  unfoldable pub copy_entries :
      List IngressTls → Slice IngressTls → String → Exec (Broker World) (Slice IngressTls × String)
  copy_entries [] copied found = pure (copied, found)
  copy_entries (entry ∷ tls) copied found = do
    hosts ← copy_hosts (elements entry.hosts) Slice.nil found
    elim hosts [
      | none ↦ pure (Slice.nil, "")
      | some (copied_hosts, found') ↦
          copy_entries tls (keep_entry copied copied_hosts entry.secret_name) found'
    ]

  unfoldable pub copy_tls : Exec (Broker World) (Slice IngressTls × String)
  copy_tls = copy_entries (elements ing.tls) Slice.nil ""
