-- ===== src/Ingress/CopyTls/Order.antt =====
-- pkg/ingress/sync.go: the order in which copyTLS ranges over the domains.
use cert_broker.Base.{String, true, false, none, some, [], ◌∷◌}
use cert_broker.Base.{◌≡◌, arith, eq_iff, eq_refl, sym, ◌∙◌, ap, Option-cases, Bool-cases, inl, inr}
use cert_broker.Base.{Option}
use cert_broker.Base.Exec.{returned}
use cert_broker.Base.Slice.{elements}
use cert_broker.Base.Text.{has_suffix, nonempty}
use cert_broker.Base.GoMap.{GoMap, Pairs, pairs, lookup, NodupKeys}
use cert_broker.Kube.{Ingress}
use cert_broker.Kube.Api.{Api}
use cert_broker.Broker.{Broker}
use cert_broker.Ingress.CopyTls.{copy_tls}
use cert_broker.Ingress.CopyTls.Selection.{find_provider, selection}
use cert_broker.Ingress.CopyTls.Refinement.{copy_tls-eq-selection}

-- `l` lists every entry of `m` once, in some order.
pub record RangesOver (l m : Pairs) : Type 0 where
  pub nodup : NodupKeys l
  pub same : (k : String) → lookup k l ≡ lookup k m

-- Two domains that one host ends in have one provider.
abbrev pub IsUnambiguous : Pairs → Type 0
IsUnambiguous m =
    (host d p d' p' : String)
    → lookup d m ≡ some p
    → lookup d' m ≡ some p'
    → has_suffix host d ≡ true
    → has_suffix host d' ≡ true
    → p ≡ p'

pub find_provider-some :
    (l : Pairs) (host p : String)
    → NodupKeys l
    → find_provider l host ≡ some p
    → (d : String) × (lookup d l ≡ some p) × (has_suffix host d ≡ true)
unfolding find_provider lookup
find_provider-some [] host p u h = absurd (cc h)
find_provider-some ((d, q) ∷ l) host p (fresh, u) h = elim (Bool-cases (has_suffix host d)) [
  | inl e ↦ (d, ground (arith, eq_refl d), e)
  | inr e ↦
      let (d', found, ends) = find_provider-some l host p u (ground arith) in
      (d', ground (arith, eq_iff d d', fresh, found), ends)
]

pub find_provider-none :
    (l : Pairs) (host d p : String)
    → find_provider l host ≡ none
    → lookup d l ≡ some p
    → has_suffix host d ≡ false
unfolding find_provider lookup
find_provider-none [] host d p h f = absurd (cc f)
find_provider-none ((d', q) ∷ l) host d p h f =
    ground (arith, eq_iff d' d, find_provider-none l host d p)

pub find_provider_order :
    (l m : Pairs)
    → RangesOver l m
    → NodupKeys m
    → IsUnambiguous m
    → (host : String) → find_provider l host ≡ find_provider m host
find_provider_order l m r u amb host = elim (Option-cases (find_provider l host)) [
  | inl e ↦ elim (Option-cases (find_provider m host)) [
    | inl e' ↦ cc
    | inr (p, e') ↦
        let (d, f, ends) = find_provider-some m host p u e' in
        absurd (ground (arith, find_provider-none l host d p e (r.same d ∙ f)))
  ]
  | inr (p, e) ↦
      let (d, f, ends) = find_provider-some l host p r.nodup e in
      elim (Option-cases (find_provider m host)) [
        | inl e' ↦ absurd (ground (arith, find_provider-none m host d p e' (sym (r.same d) ∙ f)))
        | inr (p', e') ↦
            let (d', f', ends') = find_provider-some m host p' u e' in
            e ∙ ap some (amb host d p d' p' (sym (r.same d) ∙ f) f' ends ends') ∙ sym e'
      ]
]

-- What the theorems on whole runs assume of the domains that are configured.
pub record IsWellConfigured (api : Api) (domains : GoMap) : Type 0 where
  -- each `range` loop visits every entry once
  pub ranges : (w : api.World) → RangesOver (api.range domains w).0 (pairs domains)
  pub nodup : NodupKeys (pairs domains)
  pub unambiguous : IsUnambiguous (pairs domains)
  -- no provider is the empty text
  pub named : (d p : String) → lookup d (pairs domains) ≡ some p → nonempty p ≡ true

-- The provider of a host.
abbrev pub provider_of : GoMap → String → Option String
provider_of domains = find_provider (pairs domains)

module _ (api : Api) (domains : GoMap) (fit : IsWellConfigured api domains) where
  pub ranges-eq_provider_of :
      (w : api.World) (host : String)
      → find_provider (api.range domains w).0 host ≡ provider_of domains host
  ranges-eq_provider_of w host =
      find_provider_order (api.range domains w).0 (pairs domains) (fit.ranges w) fit.nodup
        fit.unambiguous host

  pub provider_of-nonempty :
      (host p : String) → provider_of domains host ≡ some p → nonempty p ≡ true
  provider_of-nonempty host p e =
      let (d, f, ends) = find_provider-some (pairs domains) host p fit.nodup e in fit.named d p f

  -- If each range over the domains visits every entry once, no host ends in two domains of
  -- different providers and no provider is empty, then copyTLS returns the selection of the managed
  -- hosts and their provider, whatever order Go ranges in, and leaves the template alone.
  pub copy_tls-selection :
      (ing : Ingress) (s : Broker api.World)
      → ((copy_tls api domains ing s).0
          ≡ returned (selection (provider_of domains) (elements ing.tls)))
        × ((copy_tls api domains ing s).1.template ≡ s.template)
  copy_tls-selection ing s =
      copy_tls-eq-selection api domains ing (provider_of domains) ranges-eq_provider_of
        provider_of-nonempty s
