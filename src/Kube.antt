-- ===== src/Kube.antt =====
-- The Kubernetes objects that the controllers read and write, with the fields they use. The types
-- are those of k8s.io/api; a field that no code of the repository mentions is left out.
pub mod Api
pub mod Store
pub mod Laws
pub mod Memory
pub mod Reliable
pub mod Versioned
pub mod Updates
pub mod Annotated
pub mod Guarded
pub mod Logged
use cert_broker.Base.{String, Bool, Option, none, some, List}
use cert_broker.Base.Slice.{Slice}
use cert_broker.Base.GoMap.{GoMap}
use cert_broker.Base.Int.{ℤ}

-- extensions/v1beta1 IngressTLS
pub record IngressTls : Type 0 where
  pub hosts : Slice String
  pub secret_name : String

-- extensions/v1beta1 Ingress; of a rule only the host is used.
pub record Ingress : Type 0 where
  pub name : String
  pub namespace : String
  pub labels : GoMap
  pub annotations : GoMap
  pub tls : Slice IngressTls
  pub rule_hosts : List String

-- core/v1 Secret; `content` is the field Data.
pub record Secret : Type 0 where
  pub name : String
  pub namespace : String
  pub labels : GoMap
  pub annotations : GoMap
  pub content : GoMap

-- core/v1 ObjectReference
pub record ObjectReference : Type 0 where
  pub api_version : String
  pub kind : String
  pub namespace : String
  pub name : String

-- core/v1 Event
pub record Event : Type 0 where
  pub name : String
  pub namespace : String
  -- the version of the object that the API server gives
  pub resource_version : String
  pub annotations : GoMap
  pub involved_object : ObjectReference
  pub count : ℤ
  pub kind : String
  pub reason : String
  pub message : String

-- meta/v1 OwnerReference
pub record OwnerReference : Type 0 where
  pub api_version : String
  pub kind : String
  pub name : String

-- What the lister of Certificate resources returns: nil, an unstructured object with its owner
-- references, or an object of another Go type.
pub data Certificate : Type 0 where
  nil : Certificate
  unstructured : List OwnerReference → Certificate
  foreign : Certificate

-- The dynamic types that an informer hands to a filter or an event handler as `interface{}`.
-- `tombstone` is cache.DeletedFinalStateUnknown, with the key that it carries.
pub data Object : Type 0 where
  ingress : Ingress → Object
  secret : Secret → Object
  event : Event → Object
  tombstone : String → Object
  other : Object

-- The type assertion obj.(metav1.Object): the name and the namespace.
abbrev pub as_meta : Object → Option (String × String)
as_meta (ingress i) = some (i.name, i.namespace)
as_meta (secret s) = some (s.name, s.namespace)
as_meta (event e) = some (e.name, e.namespace)
as_meta (tombstone k) = none
as_meta other = none
