-- ===== src/Ingress/CopyTls/Results.antt =====
-- pkg/ingress/sync.go: what the loops of copyTLS return, as functions of the providers of the hosts.
use cert_broker.Base.{
  String, append_assoc, ◌==◌, Bool, true, false, not, ◌&&◌, Option, none, some, List, [], ◌∷◌, ◌++◌,
  if◌then◌else◌,
}
use cert_broker.Base.{
  ◌≡◌, refl, arith, eq_iff, ap, All, All-append, Option-cases, Bool-cases, inl, inr,
}
use cert_broker.Base.Slice.{Slice, elements, append}
use cert_broker.Base.Text.{nonempty}
use cert_broker.Base.GoMap.{Pairs}
use cert_broker.Kube.{IngressTls}
use cert_broker.Ingress.CopyTls.{Match, conflict, managed, unmanaged, scan_domains, keep_entry}
use cert_broker.Ingress.CopyTls.Selection.{
  find_provider, extend, managed_hosts, providers, entry_providers, managed_entries, cons_entry,
  all_are, uniform, first_or_empty, selection,
}

abbrev pub judge : Option String → String → Match
judge none found = unmanaged
judge (some p) found = if nonempty found && not (found == p) then conflict else managed p

pub scan_domains-eq_judge :
    (l : Pairs) (host found : String)
    → scan_domains l host found ≡ judge (find_provider l host) found
unfolding scan_domains find_provider
scan_domains-eq_judge [] host found = refl
scan_domains-eq_judge ((d, p) ∷ l) host found = ground (arith, scan_domains-eq_judge l host found)

pub judge_conflict :
    (p found : String)
    → (nonempty found && not (found == p)) ≡ true
    → judge (some p) found ≡ conflict
judge_conflict p found c = rw c

pub judge_managed :
    (p found : String)
    → (nonempty found && not (found == p)) ≡ false
    → judge (some p) found ≡ managed p
judge_managed p found c = rw c

-- The providers agree, with one another and with the one found so far.
abbrev pub agree : String → List String → Bool
agree found [] = true
agree found (p ∷ ps) = not (nonempty found && not (found == p)) && agree p ps

abbrev pub last : String → List String → String
last found [] = found
last found (p ∷ ps) = last p ps

extend-append :
    {A : Type 0} (s : Slice A) (x : A) (xs : List A) → extend (append s x) xs ≡ extend s (x ∷ xs)
extend-append s x [] = refl
extend-append s x (y ∷ ys) = ap Slice.made (append_assoc (elements s) (x ∷ []) (y ∷ ys))

-- What the loop over the hosts of one entry returns.
unfoldable pub hosts_result :
    (String → Option String) → List String → Slice String → String → Option (Slice String × String)
unfolding managed_hosts providers
hosts_result provider_of hosts copied found =
    let ps = providers provider_of hosts in
    if agree found ps
    then some (extend copied (managed_hosts provider_of hosts), last found ps)
    else none

pub hosts_result_unmanaged :
    (provider_of : String → Option String) (host : String) (hosts : List String)
    (copied : Slice String) (found : String)
    → provider_of host ≡ none
    → hosts_result provider_of (host ∷ hosts) copied found
      ≡ hosts_result provider_of hosts copied found
unfolding hosts_result
hosts_result_unmanaged provider_of host hosts copied found e = rw e

pub hosts_result_conflict :
    (provider_of : String → Option String) (host : String) (hosts : List String)
    (copied : Slice String) (found p : String)
    → provider_of host ≡ some p
    → (nonempty found && not (found == p)) ≡ true
    → hosts_result provider_of (host ∷ hosts) copied found ≡ none
unfolding hosts_result
hosts_result_conflict provider_of host hosts copied found p e c = rw (e, c) refl

pub hosts_result_managed :
    (provider_of : String → Option String) (host : String) (hosts : List String)
    (copied : Slice String) (found p : String)
    → provider_of host ≡ some p
    → (nonempty found && not (found == p)) ≡ false
    → hosts_result provider_of (host ∷ hosts) copied found
      ≡ hosts_result provider_of hosts (append copied host) p
unfolding hosts_result
hosts_result_managed provider_of host hosts copied found p e c = rw (e, c, extend-append) refl

pub hosts_result-agree :
    (provider_of : String → Option String) (hosts : List String) (found : String)
    → agree found (providers provider_of hosts) ≡ true
    → hosts_result provider_of hosts Slice.nil found
      ≡ some (
        extend Slice.nil (managed_hosts provider_of hosts),
        last found (providers provider_of hosts),
      )
unfolding hosts_result
hosts_result-agree provider_of hosts found a = rw a

pub hosts_result_conflict_all :
    (provider_of : String → Option String) (hosts : List String) (found : String)
    → agree found (providers provider_of hosts) ≡ false
    → hosts_result provider_of hosts Slice.nil found ≡ none
unfolding hosts_result
hosts_result_conflict_all provider_of hosts found a = rw a

agree-append :
    (found : String) (ps qs : List String)
    → agree found (ps ++ qs) ≡ (agree found ps && agree (last found ps) qs)
agree-append found [] qs = refl
agree-append found (p ∷ ps) qs = ground (arith, agree-append p ps qs)

last-append :
    (found : String) (ps qs : List String) → last found (ps ++ qs) ≡ last (last found ps) qs
last-append found [] qs = refl
last-append found (p ∷ ps) qs = last-append p ps qs

-- What the loop over the entries returns.
unfoldable pub entries_result :
    (String → Option String)
    → List IngressTls
    → Slice IngressTls
    → String
    → Slice IngressTls × String
unfolding managed_entries entry_providers
entries_result provider_of tls copied found =
    let ps = entry_providers provider_of tls in
    if agree found ps
    then (extend copied (managed_entries provider_of tls), last found ps)
    else (Slice.nil, "")

keep_entry-extend :
    (copied : Slice IngressTls) (hosts : List String) (secret_name : String) (tls : List IngressTls)
    → extend (keep_entry copied (extend Slice.nil hosts) secret_name) tls
      ≡ extend copied (cons_entry hosts secret_name tls)
keep_entry-extend copied [] secret_name tls = refl
keep_entry-extend copied (host ∷ hosts) secret_name tls = extend-append copied _ tls

module _ (provider_of : String → Option String) (entry : IngressTls) (tls : List IngressTls)
    (copied : Slice IngressTls) (found : String) where
  abbrev hosts : List String
  hosts = elements entry.hosts

  pub entries_result-agree :
      agree found (providers provider_of hosts) ≡ true
      → entries_result provider_of (entry ∷ tls) copied found
        ≡ entries_result provider_of tls
            (keep_entry copied
              (extend Slice.nil (managed_hosts provider_of hosts))
              entry.secret_name)
            (last found (providers provider_of hosts))
  unfolding entries_result
  entries_result-agree a = rw (agree-append, a, last-append, keep_entry-extend) refl

  pub entries_result_conflict :
      agree found (providers provider_of hosts) ≡ false
      → entries_result provider_of (entry ∷ tls) copied found ≡ (Slice.nil, "")
  unfolding entries_result
  entries_result_conflict a = rw (agree-append, a) refl

-- Without an empty provider, agreement is uniformity.
abbrev pub NonemptyText : String → Type 0
NonemptyText p = nonempty p ≡ true

agree-eq-all_are :
    (p : String) (ps : List String)
    → NonemptyText p
    → All NonemptyText ps
    → agree p ps ≡ all_are p ps
unfolding all_are
agree-eq-all_are p [] n ns = refl
agree-eq-all_are p (q ∷ qs) n (m, ns) = ground (arith, agree-eq-all_are q qs m ns, eq_iff p q)

agree-eq-uniform : (ps : List String) → All NonemptyText ps → agree "" ps ≡ uniform ps
unfolding uniform
agree-eq-uniform [] ns = refl
agree-eq-uniform (p ∷ ps) (n, ns) = agree-eq-all_are p ps n ns

last-eq_of_all_are : (p : String) (ps : List String) → all_are p ps ≡ true → last p ps ≡ p
unfolding all_are
last-eq_of_all_are p [] h = refl
last-eq_of_all_are p (q ∷ qs) h = ground (arith, last-eq_of_all_are q qs, eq_iff p q)

last-eq-first_or_empty : (ps : List String) → uniform ps ≡ true → last "" ps ≡ first_or_empty ps
unfolding uniform
last-eq-first_or_empty [] h = refl
last-eq-first_or_empty (p ∷ ps) h = last-eq_of_all_are p ps h

module _ (provider_of : String → Option String)
    (named : (host p : String) → provider_of host ≡ some p → NonemptyText p) where
  providers-All : (hosts : List String) → All NonemptyText (providers provider_of hosts)
  unfolding providers
  providers-All [] = tt
  providers-All (host ∷ hosts) = elim (Option-cases (provider_of host)) [
    | inl e ↦ rw e (providers-All hosts)
    | inr (p, e) ↦ rw e (named host p e, providers-All hosts)
  ]

  entry_providers-All : (tls : List IngressTls) → All NonemptyText (entry_providers provider_of tls)
  unfolding entry_providers
  entry_providers-All [] = tt
  entry_providers-All (entry ∷ tls) =
      All-append NonemptyText (providers provider_of (elements entry.hosts)) _
        (providers-All (elements entry.hosts)) (entry_providers-All tls)

  pub entries_result-eq-selection :
      (tls : List IngressTls)
      → entries_result provider_of tls Slice.nil "" ≡ selection provider_of tls
  unfolding entries_result selection
  entries_result-eq-selection tls =
      let ps = entry_providers provider_of tls in
      let a = agree-eq-uniform ps (entry_providers-All tls) in
      elim (Bool-cases (uniform ps)) [
        | inl u ↦ ground (arith, a, u, last-eq-first_or_empty ps u)
        | inr u ↦ ground (arith, a, u)
      ]
