-- ===== src/Kube/Api.antt =====
-- What the controllers call and the repository does not implement: the listers over the informer
-- caches, the clients of the two clusters, the event recorder, the key functions of client-go and
-- the order in which Go ranges over a map. Each call may change the world and may fail.
use cert_broker.Base.{String, Bool, Option, List, Result}
use cert_broker.Base.GoMap.{GoMap, Pairs}
use cert_broker.Kube.{Ingress, Secret, Event, Certificate, Object}

pub record Api : Type 1 where
  pub World : Type 0
  pub Error : Type 0
  pub Selector : Type 0
  -- k8s.io/apimachinery/pkg/api/errors
  pub is_not_found : Error → Bool
  pub is_already_exists : Error → Bool
  pub is_conflict : Error → Bool
  -- k8s.io/client-go/tools/cache
  pub split_meta_namespace_key : String → Result Error (String × String)
  pub meta_namespace_key : Object → Result Error String
  pub deletion_meta_namespace_key : Object → Result Error String
  -- the listers, by namespace and name
  pub target_ingress : String → String → World → Result Error Ingress × World
  pub control_ingress : String → String → World → Result Error Ingress × World
  pub control_secret : String → String → World → Result Error Secret × World
  pub control_event : String → String → World → Result Error Event × World
  pub control_certificate : String → String → World → Result Error Certificate × World
  -- meta/v1 LabelSelectorAsSelector, and the lister of target Ingresses by namespace and selector
  pub label_selector : GoMap → Result Error Selector
  pub target_ingresses : String → Selector → World → Result Error (List Ingress) × World
  -- the client of the control cluster
  pub create_ingress : String → Ingress → World → Option Error × World
  pub update_ingress : String → Ingress → World → Option Error × World
  pub delete_ingress : String → String → World → Option Error × World
  pub delete_secret : String → String → World → Option Error × World
  pub update_event : String → Event → World → Option Error × World
  -- the client of the target cluster
  pub create_secret : String → Secret → World → Option Error × World
  pub update_secret : String → Secret → World → Option Error × World
  -- the recorder of events for an Ingress: type, reason and message
  pub record_event : Ingress → String → String → String → World → Unit {0} × World
  -- the entries of a map in the order of one `range` loop
  pub range : GoMap → World → Pairs × World
