-- ===== src/Tests/Template.antt =====
-- Two calls of CreateControlIngress that overlap.
use cert_broker.Base.{ℕ, ◌≡◌, ◌↔◌, List, [], ◌∷◌}
use cert_broker.Base.Slice.{Slice}
use cert_broker.Template.Calls.{Call, Stage, stored, built, with_provider, Advances, all_called}
use cert_broker.Template.Calls.Invariant.{alone, emptied}
use cert_broker.Template.Calls.Laws.{Advances-mixed}
use cert_broker.Base.GoMap.{lookup}
use cert_broker.Template.{class_key, annotation_pairs}
use cert_broker.Template.Class.{class_of, lookup-class_of}
use cert_broker.Tests.Data.{template, shop_tls}

abbrev seven : ℕ
seven = 7

abbrev eight : ℕ
eight = 8

abbrev first : Call
first = record {
  name = "managed-cert.shop.web";
  namespace = "control";
  dns_provider = "aws";
  tls = Slice.made (shop_tls ∷ []);
}

abbrev second : Call
second = record first { name = "managed-cert.shop.api"; dns_provider = "gcp" }

abbrev mixed : List (Call × Stage)
mixed =
    (first, built (alone "class" template first "gcp"))
    ∷ (second, built (alone "class" template second "gcp"))
    ∷ []

Advances-mixed_example :
    Advances "class" template
      (all_called (first ∷ second ∷ []))
      (with_provider template second)
      mixed
Advances-mixed_example = Advances-mixed "class" template first second []

-- A call without a provider.
abbrev third : Call
third = record first { name = "managed-cert.shop.old"; dns_provider = "" }

-- The first call has tested its own provider, and reads the one of the other.
abbrev crossed : List (Call × Stage)
crossed = (first, built (emptied "class" template first)) ∷ (third, stored) ∷ []

lookup-class_of_example :
    (lookup class_key (annotation_pairs (class_of seven) template)
      ≡ lookup class_key (annotation_pairs (class_of eight) template))
    ↔ (seven ≡ eight)
lookup-class_of_example = lookup-class_of seven eight template template
