-- ===== src/Kube/Reliable.antt =====
-- Clusters that answer: reads and deletes fail for what is missing alone, a create of a secret for
-- one that is there already, an update of an event for an outdated version, and every other call
-- succeeds.
use cert_broker.Base.{String, true, ◌≡◌, none, some, err}
use cert_broker.Kube.{Ingress, Secret, Event}
use cert_broker.Kube.Api.{Api}
use cert_broker.Cleanup.{blocking}

pub record IsReliable (api : Api) : Type 0 where
  pub target_reads :
      (ns n : String) (w : api.World) (e : api.Error)
      → (api.target_ingress ns n w).0 ≡ err e
      → api.is_not_found e ≡ true
  pub control_reads :
      (ns n : String) (w : api.World) (e : api.Error)
      → (api.control_ingress ns n w).0 ≡ err e
      → api.is_not_found e ≡ true
  pub creates : (ns : String) (i : Ingress) (w : api.World) → (api.create_ingress ns i w).0 ≡ none
  pub updates : (ns : String) (i : Ingress) (w : api.World) → (api.update_ingress ns i w).0 ≡ none
  pub ingress_deletes :
      (ns n : String) (w : api.World) → blocking api (api.delete_ingress ns n w).0 ≡ none
  pub secret_deletes :
      (ns n : String) (w : api.World) → blocking api (api.delete_secret ns n w).0 ≡ none
  pub secret_creates :
      (ns : String) (x : Secret) (w : api.World) (e : api.Error)
      → (api.create_secret ns x w).0 ≡ some e
      → api.is_already_exists e ≡ true
  pub secret_updates :
      (ns : String) (x : Secret) (w : api.World) → (api.update_secret ns x w).0 ≡ none
  pub event_updates :
      (ns : String) (e : Event) (w : api.World) (f : api.Error)
      → (api.update_event ns e w).0 ≡ some f
      → api.is_conflict f ≡ true
