-- ===== src/Kube/Store.antt =====
-- What the API servers of both clusters hold, as tables by namespace and name, and the events that
-- were recorded for Ingress resources. The laws of Kube/Laws.antt are stated by it.
use cert_broker.Base.{String, ◌==◌, ◌&&◌, Option, none, List, [], ◌∷◌, ◌++◌, if◌then◌else◌}
use cert_broker.Base.{◌≡◌, refl, arith, eq_refl, eq_iff, false}
use cert_broker.Kube.{Ingress, Secret, Event}

abbrev pub Table : Type 0 → Type 0
Table A = String → String → Option A

-- The table with another entry at one namespace and name.
abbrev pub place : {A : Type 0} → Table A → String → String → Option A → Table A
place t namespace name v namespace' name' =
    if namespace == namespace' && name == name' then v else t namespace' name'

-- An event that was recorded: the Ingress, the type, the reason and the message.
pub record Notice : Type 0 where
  pub about : Ingress
  pub kind : String
  pub reason : String
  pub message : String

pub record Store : Type 0 where
  pub target_ingresses : Table Ingress
  pub target_secrets : Table Secret
  pub control_ingresses : Table Ingress
  pub control_secrets : Table Secret
  pub control_events : Table Event
  pub notices : List Notice

abbrev pub put_control_ingress : String → String → Option Ingress → Store → Store
put_control_ingress namespace name v s = record s {
  control_ingresses = place s.control_ingresses namespace name v;
}

abbrev pub put_control_secret : String → String → Option Secret → Store → Store
put_control_secret namespace name v s = record s {
  control_secrets = place s.control_secrets namespace name v;
}

abbrev pub put_target_secret : String → String → Option Secret → Store → Store
put_target_secret namespace name v s = record s {
  target_secrets = place s.target_secrets namespace name v;
}

abbrev pub put_control_event : String → String → Option Event → Store → Store
put_control_event namespace name v s = record s {
  control_events = place s.control_events namespace name v;
}

abbrev pub notify : Ingress → String → String → String → Store → Store
notify ing kind reason message s = record s {
  notices =
      s.notices ++ record { about = ing; kind = kind; reason = reason; message = message } ∷ [];
}

module _ {A : Type 0} where
  pub place_self :
      (t : Table A) (namespace name : String) (v : Option A)
      → place t namespace name v namespace name ≡ v
  place_self t namespace name v = rw (eq_refl namespace, eq_refl name) refl

  -- An entry that is absent stays absent when another one is removed.
  pub place_absent :
      (t : Table A) (namespace name namespace' name' : String)
      → t namespace' name' ≡ none
      → place t namespace name none namespace' name' ≡ none
  place_absent t namespace name namespace' name' h = ground arith

  -- Two entries are placed in any order.
  pub place_comm :
      (t : Table A) (namespace name name' : String) (v v' : Option A)
      → (name == name') ≡ false
      → (ns n : String)
      → place (place t namespace name v) namespace name' v' ns n
        ≡ place (place t namespace name' v') namespace name v ns n
  place_comm t namespace name name' v v' d ns n =
      ground (arith, d, eq_iff name n, eq_iff name' n, eq_iff name name')

  -- An entry of another name stays.
  pub place_other :
      (t : Table A) (namespace name name' : String) (v : Option A)
      → (name == name') ≡ false
      → place t namespace name v namespace name' ≡ t namespace name'
  place_other t namespace name name' v d = rw (d, eq_refl namespace) refl
