-- ===== src/Ingress/Prefix/Laws.antt =====
-- pkg/ingress/sync.go: what the comparison of TLS sections decides.
use text.Mathlib.TextLemmas.{append_cancel_left}
use cert_broker.Base.{String, true, List, [], ◌∷◌, ◌≡◌, refl, ◌↔◌, arith, ap, sym, eq_iff}
use cert_broker.Base.Slice.{Slice, elements}
use cert_broker.Kube.{IngressTls}
use cert_broker.Naming.{create_name_for_control_cluster}
use cert_broker.Ingress.Prefix.{
  prefix_entries, prefix_with_namespace, equal_texts, equal_hosts, equal_entries, equal_tls,
  deep_equal,
}

equal_texts_iff : (xs ys : List String) → (equal_texts xs ys ≡ true) ↔ (xs ≡ ys)
unfolding equal_texts
equal_texts_iff [] [] = (λ h. refl, λ h. refl)
equal_texts_iff [] (y ∷ ys) = (λ h. absurd (cc h), λ h. absurd (cc h))
equal_texts_iff (x ∷ xs) [] = (λ h. absurd (cc h), λ h. absurd (cc h))
equal_texts_iff (x ∷ xs) (y ∷ ys) = ground (arith, eq_iff x y, equal_texts_iff xs ys)

equal_hosts_iff : (xs ys : Slice String) → (equal_hosts xs ys ≡ true) ↔ (xs ≡ ys)
unfolding equal_hosts
equal_hosts_iff Slice.nil Slice.nil = (λ h. refl, λ h. refl)
equal_hosts_iff Slice.nil (Slice.made ys) = (λ h. absurd (cc h), λ h. absurd (cc h))
equal_hosts_iff (Slice.made xs) Slice.nil = (λ h. absurd (cc h), λ h. absurd (cc h))
equal_hosts_iff (Slice.made xs) (Slice.made ys) = ground (arith, equal_texts_iff xs ys)

equal_entries_iff : (xs ys : List IngressTls) → (equal_entries xs ys ≡ true) ↔ (xs ≡ ys)
unfolding equal_entries
equal_entries_iff [] [] = (λ h. refl, λ h. refl)
equal_entries_iff [] (y ∷ ys) = (λ h. absurd (cc h), λ h. absurd (cc h))
equal_entries_iff (x ∷ xs) [] = (λ h. absurd (cc h), λ h. absurd (cc h))
equal_entries_iff (x ∷ xs) (y ∷ ys) = ground (
  arith,
  equal_hosts_iff x.hosts y.hosts,
  eq_iff x.secret_name y.secret_name,
  equal_entries_iff xs ys,
)

pub equal_tls_iff : (xs ys : Slice IngressTls) → (equal_tls xs ys ≡ true) ↔ (xs ≡ ys)
unfolding equal_tls
equal_tls_iff Slice.nil Slice.nil = (λ h. refl, λ h. refl)
equal_tls_iff Slice.nil (Slice.made ys) = (λ h. absurd (cc h), λ h. absurd (cc h))
equal_tls_iff (Slice.made xs) Slice.nil = (λ h. absurd (cc h), λ h. absurd (cc h))
equal_tls_iff (Slice.made xs) (Slice.made ys) = ground (arith, equal_entries_iff xs ys)

-- deepEqual holds exactly if the second section has the entries of the first one with prefixed
-- secret names, and is not nil.
pub deep_equal_iff :
    (tls prefixed_tls : Slice IngressTls) (namespace : String)
    → (deep_equal tls prefixed_tls namespace ≡ true)
      ↔ (prefixed_tls ≡ Slice.made (prefix_entries namespace (elements tls)))
unfolding deep_equal
deep_equal_iff tls prefixed_tls namespace =
    let p = equal_tls_iff (Slice.made (prefix_entries namespace (elements tls))) prefixed_tls in
    (λ h. sym (p.0 h), λ e. p.1 (sym e))

create_name_for_control_cluster-injective_right :
    (namespace a b : String)
    → create_name_for_control_cluster namespace a ≡ create_name_for_control_cluster namespace b
    → a ≡ b
unfolding create_name_for_control_cluster
create_name_for_control_cluster-injective_right namespace a b e = append_cancel_left "." a b (
    append_cancel_left namespace _ _
      (append_cancel_left "." _ _ (append_cancel_left "managed-cert" _ _ e)))

prefix_entries-injective :
    (namespace : String) (xs ys : List IngressTls)
    → prefix_entries namespace xs ≡ prefix_entries namespace ys
    → xs ≡ ys
prefix_entries-injective namespace [] [] e = refl
prefix_entries-injective namespace [] (y ∷ ys) e = absurd (cc e)
prefix_entries-injective namespace (x ∷ xs) [] e = absurd (cc e)
prefix_entries-injective namespace (x ∷ xs) (y ∷ ys) e =
    let names : create_name_for_control_cluster namespace x.secret_name
        ≡ create_name_for_control_cluster namespace y.secret_name =
      ground arith in
    let rest : prefix_entries namespace xs ≡ prefix_entries namespace ys = ground arith in
    ground (
      arith,
      create_name_for_control_cluster-injective_right namespace x.secret_name y.secret_name names,
      prefix_entries-injective namespace xs ys rest,
    )

-- A TLS section whose copy was prefixed compares as equal to it exactly if the copy is the whole
-- section, and not nil.
pub deep_equal-prefix_with_namespace :
    (tls copied : Slice IngressTls) (namespace : String)
    → (deep_equal tls (prefix_with_namespace copied namespace) namespace ≡ true)
      ↔ (copied ≡ Slice.made (elements tls))
unfolding prefix_with_namespace
deep_equal-prefix_with_namespace tls Slice.nil namespace =
    (λ h. absurd (cc ((deep_equal_iff tls Slice.nil namespace).0 h)), λ e. absurd (cc e))
deep_equal-prefix_with_namespace tls (Slice.made xs) namespace =
    let p = deep_equal_iff tls (Slice.made (prefix_entries namespace xs)) namespace in
    (
      λ h.
          ap Slice.made
            (prefix_entries-injective namespace xs (elements tls) (ground (arith, p.0 h))),
      λ e. p.1 (ground (arith, e)),
    )
