-- ===== src/Template/Class.antt =====
-- pkg/utils/controller-helper.go: init, which sets the global ingressClass. The random number is an
-- argument; rand's Int returns one that is not negative.
use Prim.Native.String.{◌++◌ as ◌<>◌}
use text.Mathlib.TextLemmas.{append_cancel_left}
use cert_broker.Base.{ℕ, String, ◌≡◌, ◌↔◌, ◌∙◌, sym, ap, some}
use cert_broker.Base.Int.{pos}
use cert_broker.Base.Decimal.{itoa}
use cert_broker.Base.Decimal.Laws.{itoa_injective}
use cert_broker.Base.GoMap.{lookup}
use cert_broker.Naming.{managed_cert}
use cert_broker.Template.{IngressTemplate, annotation_pairs, class_key}
use cert_broker.Template.Laws.{lookup-annotation_pairs}

unfoldable pub class_of : ℕ → String
class_of random = managed_cert <> ("-" <> itoa (pos random))

class_of_injective : (m n : ℕ) → class_of m ≡ class_of n → m ≡ n
unfolding class_of
class_of_injective m n e = itoa_injective m n (
    append_cancel_left "-" (itoa (pos m)) (itoa (pos n))
      (append_cancel_left managed_cert ("-" <> itoa (pos m)) ("-" <> itoa (pos n)) e))

-- The annotations that two processes write, from any templates, have the same Ingress class exactly
-- if the processes drew the same random number at their start.
pub lookup-class_of :
    (m n : ℕ) (t t' : IngressTemplate)
    → (lookup class_key (annotation_pairs (class_of m) t)
        ≡ lookup class_key (annotation_pairs (class_of n) t'))
      ↔ (m ≡ n)
lookup-class_of m n t t' =
    let left = lookup-annotation_pairs (class_of m) t class_key in
    let right = lookup-annotation_pairs (class_of n) t' class_key in
    (
      λ e.
          class_of_injective m n
            (let same : some (class_of m) ≡ some (class_of n) = sym left ∙ e ∙ right in cc same),
      λ e. left ∙ ap (λ k. some (class_of k)) e ∙ sym right,
    )
