-- ===== src/Ingress/Prefix.antt =====
-- pkg/ingress/sync.go: prefixWithNamespace and deepEqual. prefixWithNamespace writes to the elements
-- of the slice that it is given, which both callers have just made: the model returns the elements.
pub mod Laws
use cert_broker.Base.{String, ◌==◌, Bool, true, false, ◌&&◌, List, [], ◌∷◌}
use cert_broker.Base.Slice.{Slice, elements}
use cert_broker.Kube.{IngressTls}
use cert_broker.Naming.{create_name_for_control_cluster}

abbrev pub prefix_entry : String → IngressTls → IngressTls
prefix_entry namespace entry = record entry {
  secret_name = create_name_for_control_cluster namespace entry.secret_name;
}

abbrev pub prefix_entries : String → List IngressTls → List IngressTls
prefix_entries namespace [] = []
prefix_entries namespace (entry ∷ tls) = prefix_entry namespace entry ∷ prefix_entries namespace tls

unfoldable pub prefix_with_namespace : Slice IngressTls → String → Slice IngressTls
prefix_with_namespace Slice.nil namespace = Slice.nil
prefix_with_namespace (Slice.made tls) namespace = Slice.made (prefix_entries namespace tls)

-- reflect.DeepEqual, on lists of texts, slices of them, TLS entries and slices of those
unfoldable pub equal_texts : List String → List String → Bool
equal_texts [] [] = true
equal_texts (x ∷ xs) (y ∷ ys) = x == y && equal_texts xs ys
equal_texts _ _ = false

unfoldable pub equal_hosts : Slice String → Slice String → Bool
unfolding equal_texts
equal_hosts Slice.nil Slice.nil = true
equal_hosts (Slice.made xs) (Slice.made ys) = equal_texts xs ys
equal_hosts _ _ = false

unfoldable pub equal_entries : List IngressTls → List IngressTls → Bool
unfolding equal_hosts
equal_entries [] [] = true
equal_entries (x ∷ xs) (y ∷ ys) =
    equal_hosts x.hosts y.hosts && (x.secret_name == y.secret_name && equal_entries xs ys)
equal_entries _ _ = false

unfoldable pub equal_tls : Slice IngressTls → Slice IngressTls → Bool
unfolding equal_entries
equal_tls Slice.nil Slice.nil = true
equal_tls (Slice.made xs) (Slice.made ys) = equal_entries xs ys
equal_tls _ _ = false

-- `make` never gives a nil slice.
unfoldable pub deep_equal : Slice IngressTls → Slice IngressTls → String → Bool
unfolding equal_tls prefix_with_namespace
deep_equal tls prefixed_tls namespace =
    let tls_copy = Slice.made (elements tls) in
    equal_tls (prefix_with_namespace tls_copy namespace) prefixed_tls
