-- ===== src/Template/Calls.antt =====
-- CreateControlIngress of pkg/utils/controller-helper.go on the one template that the workers of the
-- Ingress controller share, without a lock: each call stores its provider in the template, tests whether
-- the one that the template holds by then is empty, and builds the Ingress with the one that it holds
-- after that. The steps of the calls interleave in any order; a single read or write of the field is
-- taken as atomic.
pub mod Invariant
pub mod Laws
use cert_broker.Base.{String, Bool, List, [], ◌∷◌}
use cert_broker.Base.Text.{nonempty}
use cert_broker.Base.Slice.{Slice}
use cert_broker.Base.GoMap
use cert_broker.Kube.{Ingress, IngressTls}
use cert_broker.Naming.{managed_cert}
use cert_broker.Template.{IngressTemplate, common_pairs, add_provider}

-- The arguments of a call.
pub record Call : Type 0 where
  pub name : String
  pub namespace : String
  pub dns_provider : String
  pub tls : Slice IngressTls

-- Before the assignment, after it, after the test of the provider with its outcome, and after the return.
pub data Stage : Type 0 where
  called stored : Stage
  tested : Bool → Stage
  built : Ingress → Stage

abbrev pub with_provider : IngressTemplate → Call → IngressTemplate
with_provider t c = record t { dns01_provider = c.dns_provider }

-- The rest of the body after the test, with the outcome of the test.
abbrev pub build : String → IngressTemplate → Call → Bool → Ingress
build ingress_class t c outcome = record {
  name = c.name;
  namespace = c.namespace;
  labels = GoMap.nil;
  annotations = GoMap.made (add_provider outcome t (common_pairs ingress_class t));
  tls = c.tls;
  rule_hosts = managed_cert ∷ [];
}

-- The calls that are under way, from one template to the next.
pub data Advance (ingress_class : String)
    : IngressTemplate → List (Call × Stage) → IngressTemplate → List (Call × Stage) → Type 0 where
  store :
      (t : IngressTemplate) (c : Call) (l : List (Call × Stage))
      → Advance ingress_class t ((c, called) ∷ l) (with_provider t c) ((c, stored) ∷ l)
  test :
      (t : IngressTemplate) (c : Call) (l : List (Call × Stage))
      → Advance ingress_class t ((c, stored) ∷ l) t ((c, tested (nonempty t.dns01_provider)) ∷ l)
  finish :
      (t : IngressTemplate) (c : Call) (outcome : Bool) (l : List (Call × Stage))
      → Advance ingress_class t
          ((c, tested outcome) ∷ l)
          t
          ((c, built (build ingress_class t c outcome)) ∷ l)
  other :
      (x : Call × Stage) {t t' : IngressTemplate} {l l' : List (Call × Stage)}
      → Advance ingress_class t l t' l'
      → Advance ingress_class t (x ∷ l) t' (x ∷ l')

pub data Advances (ingress_class : String) (t : IngressTemplate) (l : List (Call × Stage))
    : IngressTemplate → List (Call × Stage) → Type 0 where
  no_step : Advances ingress_class t l t l
  step :
      {t' t'' : IngressTemplate} {l' l'' : List (Call × Stage)}
      → Advances ingress_class t l t' l'
      → Advance ingress_class t' l' t'' l''
      → Advances ingress_class t l t'' l''

-- All calls at their start.
abbrev pub all_called : List Call → List (Call × Stage)
all_called [] = []
all_called (c ∷ cs) = (c, called) ∷ all_called cs
