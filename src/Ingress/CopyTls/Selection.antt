-- ===== src/Ingress/CopyTls/Selection.antt =====
-- pkg/ingress/sync.go: what copyTLS is to select, without its loops.
use cert_broker.Base.{
  String, ◌==◌, Bool, true, ◌&&◌, Option, none, some, List, [], ◌∷◌, ◌++◌, if◌then◌else◌,
}
use cert_broker.Base.Slice.{Slice, elements}
use cert_broker.Base.Text.{has_suffix}
use cert_broker.Base.GoMap.{Pairs}
use cert_broker.Kube.{IngressTls}

-- The provider of the first domain that the host ends in.
unfoldable pub find_provider : Pairs → String → Option String
find_provider [] host = none
find_provider ((domain, provider) ∷ domains) host =
    if has_suffix host domain then some provider else find_provider domains host

-- append(s, xs...)
abbrev pub extend : {A : Type 0} → Slice A → List A → Slice A
extend s [] = s
extend s (x ∷ xs) = Slice.made (elements s ++ x ∷ xs)

abbrev pub cons_entry : List String → String → List IngressTls → List IngressTls
cons_entry [] secret_name tls = tls
cons_entry (host ∷ hosts) secret_name tls =
    record { hosts = Slice.made (host ∷ hosts); secret_name = secret_name } ∷ tls

abbrev cons_managed : Option String → String → List String → List String
cons_managed none host hosts = hosts
cons_managed (some p) host hosts = host ∷ hosts

abbrev cons_provider : Option String → List String → List String
cons_provider none ps = ps
cons_provider (some p) ps = p ∷ ps

module _ (provider_of : String → Option String) where
  -- The hosts that are managed, in order.
  unfoldable pub managed_hosts : List String → List String
  managed_hosts [] = []
  managed_hosts (host ∷ hosts) = cons_managed (provider_of host) host (managed_hosts hosts)

  -- Their providers.
  unfoldable pub providers : List String → List String
  providers [] = []
  providers (host ∷ hosts) = cons_provider (provider_of host) (providers hosts)

  unfoldable pub entry_providers : List IngressTls → List String
  unfolding providers
  entry_providers [] = []
  entry_providers (entry ∷ tls) = providers (elements entry.hosts) ++ entry_providers tls

  -- The entries with their managed hosts; an entry that has none is left out.
  unfoldable pub managed_entries : List IngressTls → List IngressTls
  unfolding managed_hosts
  managed_entries [] = []
  managed_entries (entry ∷ tls) =
      cons_entry (managed_hosts (elements entry.hosts)) entry.secret_name (managed_entries tls)

-- Every provider is this one.
unfoldable pub all_are : String → List String → Bool
all_are p [] = true
all_are p (q ∷ qs) = p == q && all_are p qs

-- All providers are one, and that one, or the empty text if there is none.
unfoldable pub uniform : List String → Bool
unfolding all_are
uniform [] = true
uniform (p ∷ ps) = all_are p ps

abbrev pub first_or_empty : List String → String
first_or_empty [] = ""
first_or_empty (p ∷ ps) = p

-- What copyTLS returns for the entries of an Ingress.
unfoldable pub selection : (String → Option String) → List IngressTls → Slice IngressTls × String
unfolding uniform managed_entries entry_providers
selection provider_of tls =
    let ps = entry_providers provider_of tls in
    if uniform ps
    then (extend Slice.nil (managed_entries provider_of tls), first_or_empty ps)
    else (Slice.nil, "")
