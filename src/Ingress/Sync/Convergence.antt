-- ===== src/Ingress/Sync/Convergence.antt =====
-- pkg/ingress/sync.go: when the copy that was made of an Ingress counts as up to date.
use cert_broker.Base.{
  ℕ, suc, ◌≤◌, String, true, false, ◌≡◌, ◌≢◌, refl, ap, arith, Option, none, List, [], ◌∷◌, inl,
  inr, ◌⊎◌, All, Any, Option-cases, Bool-cases,
}
use cert_broker.Base.Slice.{Slice, Slice-cases, elements}
use cert_broker.Kube.{Ingress, IngressTls}
use cert_broker.Template.{IngressTemplate, create_control_ingress}
use cert_broker.Ingress.Prefix.{deep_equal}
use cert_broker.Ingress.Prefix.Laws.{deep_equal-prefix_with_namespace}
use cert_broker.Ingress.CopyTls.Selection.{
  extend, cons_entry, managed_hosts, managed_entries, entry_providers, uniform, selection,
}
use cert_broker.Ingress.CopyTls.Order.{provider_of}
use cert_broker.Ingress.Sync.{Handler}
use cert_broker.Ingress.Sync.Effects.{selected, copied_ingress}

abbrev length : {A : Type 0} → List A → ℕ
length [] = 0
length (x ∷ xs) = suc (length xs)

cons_entry-eq :
    (entry : IngressTls) (tls : List IngressTls)
    → entry.hosts ≡ Slice.made (elements entry.hosts)
    → elements entry.hosts ≢ []
    → cons_entry (elements entry.hosts) entry.secret_name tls ≡ entry ∷ tls
cons_entry-eq entry tls e n = elim (Slice-cases entry.hosts) [
  | inl f ↦ absurd (ground (arith, e, f))
  | inr ([], f) ↦ absurd (ground (arith, n, f))
  | inr (host ∷ hosts, f) ↦ ground (arith, f)
]

-- An entry that is not left out has kept its hosts.
cons_entry-inv :
    (hosts : List String) (entry : IngressTls) (kept tls : List IngressTls)
    → cons_entry hosts entry.secret_name kept ≡ entry ∷ tls
    → (kept ≡ entry ∷ tls) ⊎ ((hosts ≡ elements entry.hosts) × (kept ≡ tls))
cons_entry-inv [] entry kept tls e = inl e
cons_entry-inv (host ∷ hosts) entry kept tls e = inr (ground arith, ground arith)

extend-made : (tls : List IngressTls) → tls ≢ [] → extend Slice.nil tls ≡ Slice.made tls
extend-made [] n = absurd (n refl)
extend-made (entry ∷ tls) n = refl

extend-inv : (tls tls' : List IngressTls) → extend Slice.nil tls ≡ Slice.made tls' → tls ≡ tls'
extend-inv [] tls' e = absurd (cc e)
extend-inv (entry ∷ tls) tls' e = cc e

selection-whole :
    (provider : String → Option String) (tls : List IngressTls)
    → (selection provider tls).0 ≡ Slice.made tls
    → managed_entries provider tls ≡ tls
unfolding selection
selection-whole provider tls e = elim (Bool-cases (uniform (entry_providers provider tls))) [
  | inl u ↦ extend-inv (managed_entries provider tls) tls (rw u at e)
  | inr u ↦ absurd (ground (arith, u, e))
]

module _ (provider : String → Option String) where
  abbrev pub IsManaged : String → Type 0
  IsManaged host = provider host ≢ none

  -- The hosts are there, and each has a provider.
  abbrev pub IsWhole : IngressTls → Type 0
  IsWhole entry =
      (entry.hosts ≡ Slice.made (elements entry.hosts))
      × (elements entry.hosts ≢ [])
      × All IsManaged (elements entry.hosts)

  length-managed_hosts :
      (hosts : List String) → length (managed_hosts provider hosts) ≤ length hosts
  unfolding managed_hosts
  length-managed_hosts [] = omega arith
  length-managed_hosts (host ∷ hosts) = ground (arith, length-managed_hosts hosts)

  length-managed_entries :
      (tls : List IngressTls) → length (managed_entries provider tls) ≤ length tls
  unfolding managed_entries
  length-managed_entries [] = omega arith
  length-managed_entries (entry ∷ tls) = ground (arith, length-managed_entries tls)

  managed_hosts-eq :
      (hosts : List String) → All IsManaged hosts → managed_hosts provider hosts ≡ hosts
  unfolding managed_hosts
  managed_hosts-eq [] h = refl
  managed_hosts-eq (host ∷ hosts) (m, h) = elim (Option-cases (provider host)) [
    | inl e ↦ absurd (m e)
    | inr (p, e) ↦ rw (e, managed_hosts-eq hosts h) refl
  ]

  managed_hosts-lost :
      (hosts : List String)
      → Any (λ host. provider host ≡ none) hosts
      → managed_hosts provider hosts ≢ hosts
  unfolding managed_hosts
  managed_hosts-lost [] h e = h
  managed_hosts-lost (host ∷ hosts) h e = elim (Option-cases (provider host)) [
    | inl n ↦
        let short : managed_hosts provider hosts ≡ host ∷ hosts = rw n at e in
        omega (arith, ap length short, length-managed_hosts hosts)
    | inr (p, f) ↦ elim h [
      | inl n ↦ cc (f, n)
      | inr rest ↦
          let kept : host ∷ managed_hosts provider hosts ≡ host ∷ hosts = rw f at e in
          managed_hosts-lost hosts rest (cc kept)
    ]
  ]

  managed_entries-eq :
      (tls : List IngressTls) → All IsWhole tls → managed_entries provider tls ≡ tls
  unfolding managed_entries
  managed_entries-eq [] h = refl
  managed_entries-eq (entry ∷ tls) ((made, some_host, m), h) =
      rw (managed_hosts-eq (elements entry.hosts) m, managed_entries-eq tls h)
        (cons_entry-eq entry tls made some_host)

  managed_entries-lost :
      (tls : List IngressTls)
      → Any (λ (entry : IngressTls). Any (λ host. provider host ≡ none) (elements entry.hosts)) tls
      → managed_entries provider tls ≢ tls
  unfolding managed_entries
  managed_entries-lost [] h e = h
  managed_entries-lost (entry ∷ tls) h e =
      elim (cons_entry-inv (managed_hosts provider (elements entry.hosts)) entry
        (managed_entries provider tls) tls e) [
          | inl short ↦ omega (arith, ap length short, length-managed_entries tls)
          | inr (heads, tails) ↦ elim h [
            | inl lost ↦ managed_hosts-lost (elements entry.hosts) lost heads
            | inr rest ↦ managed_entries-lost tls rest tails
          ]
        ]

-- The selection of a section that is managed as a whole is the section.
pub selection-managed :
    (provider : String → Option String) (tls : List IngressTls)
    → All (IsWhole provider) tls
    → uniform (entry_providers provider tls) ≡ true
    → tls ≢ []
    → (selection provider tls).0 ≡ Slice.made tls
unfolding selection
selection-managed provider tls w u n = rw (u, managed_entries-eq provider tls w) (extend-made tls n)

-- The section that is stored for an Ingress.
module _ (h : Handler) (t : IngressTemplate) (name : String) (target_ing : Ingress) where
  abbrev pub copied_tls : Slice IngressTls
  copied_tls = (copied_ingress h t name target_ing (selected h target_ing)).1.tls

  -- If every TLS entry of an Ingress has hosts, every host is managed, all by one provider, and
  -- there is an entry, then the copy that createIngress makes of it is up to date.
  pub copy_up_to_date :
      All (IsWhole (provider_of h.domain_to_dns_provider)) (elements target_ing.tls)
      → uniform (entry_providers (provider_of h.domain_to_dns_provider) (elements target_ing.tls))
        ≡ true
      → elements target_ing.tls ≢ []
      → deep_equal target_ing.tls copied_tls target_ing.namespace ≡ true
  unfolding create_control_ingress
  copy_up_to_date w u n =
      (deep_equal-prefix_with_namespace target_ing.tls (selected h target_ing).0
          target_ing.namespace).1
        (selection-managed (provider_of h.domain_to_dns_provider) (elements target_ing.tls) w u n)

  -- If a host of an Ingress is not managed, then the copy that createIngress makes of it counts as
  -- outdated at once.
  pub copy_outdated :
      Any
        (λ (entry : IngressTls).
          Any (λ host. provider_of h.domain_to_dns_provider host ≡ none) (elements entry.hosts))
        (elements target_ing.tls)
      → deep_equal target_ing.tls copied_tls target_ing.namespace ≡ false
  unfolding selection create_control_ingress
  copy_outdated a = elim (Bool-cases (deep_equal target_ing.tls copied_tls target_ing.namespace)) [
    | inr f ↦ f
    | inl e ↦ absurd (
        managed_entries-lost (provider_of h.domain_to_dns_provider) (elements target_ing.tls) a (
          selection-whole (provider_of h.domain_to_dns_provider) (elements target_ing.tls) (
            (deep_equal-prefix_with_namespace target_ing.tls (selected h target_ing).0
                target_ing.namespace).0
              e)))
  ]
