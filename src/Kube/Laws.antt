-- ===== src/Kube/Laws.antt =====
-- What the theorems assume of the calls: reads and ranges leave the tables alone, and a write that
-- reports no error has happened, and nothing else. Of a write that fails nothing is assumed, but that a
-- create of what exists and an update of an outdated version change nothing.
use cert_broker.Base.{String, true, ◌≡◌, none, some, ok, err}
use cert_broker.Base.GoMap.{GoMap}
use cert_broker.Kube.{Ingress, Secret, Event}
use cert_broker.Kube.Api.{Api}
use cert_broker.Kube.Store.{
  Store, put_control_ingress, put_control_secret, put_target_secret, put_control_event, notify,
}
use cert_broker.Cleanup.{blocking}

pub record IsLawful (api : Api) : Type 0 where
  pub view : api.World → Store
  pub view-target_ingress :
      (ns n : String) (w : api.World) → view (api.target_ingress ns n w).1 ≡ view w
  pub view-control_ingress :
      (ns n : String) (w : api.World) → view (api.control_ingress ns n w).1 ≡ view w
  pub view-control_secret :
      (ns n : String) (w : api.World) → view (api.control_secret ns n w).1 ≡ view w
  pub view-control_event :
      (ns n : String) (w : api.World) → view (api.control_event ns n w).1 ≡ view w
  pub view-control_certificate :
      (ns n : String) (w : api.World) → view (api.control_certificate ns n w).1 ≡ view w
  pub view-target_ingresses :
      (ns : String) (l : api.Selector) (w : api.World)
      → view (api.target_ingresses ns l w).1 ≡ view w
  pub view-range : (m : GoMap) (w : api.World) → view (api.range m w).1 ≡ view w
  pub view-record_event :
      (i : Ingress) (t r m : String) (w : api.World)
      → view (api.record_event i t r m w).1 ≡ notify i t r m (view w)
  pub view-create_ingress :
      (ns : String) (i : Ingress) (w : api.World)
      → (api.create_ingress ns i w).0 ≡ none
      → view (api.create_ingress ns i w).1 ≡ put_control_ingress ns i.name (some i) (view w)
  pub view-update_ingress :
      (ns : String) (i : Ingress) (w : api.World)
      → (api.update_ingress ns i w).0 ≡ none
      → view (api.update_ingress ns i w).1 ≡ put_control_ingress ns i.name (some i) (view w)
  -- A delete that finds nothing is as good.
  pub view-delete_ingress :
      (ns n : String) (w : api.World)
      → blocking api (api.delete_ingress ns n w).0 ≡ none
      → view (api.delete_ingress ns n w).1 ≡ put_control_ingress ns n none (view w)
  pub view-delete_secret :
      (ns n : String) (w : api.World)
      → blocking api (api.delete_secret ns n w).0 ≡ none
      → view (api.delete_secret ns n w).1 ≡ put_control_secret ns n none (view w)
  -- The event gets the version that the API server gives it.
  pub view-update_event :
      (ns : String) (e : Event) (w : api.World)
      → (api.update_event ns e w).0 ≡ none
      → (v : String) × (view (api.update_event ns e w).1
          ≡ put_control_event ns e.name (some (record e { resource_version = v })) (view w))
  -- An update of another version than the current one changes nothing.
  pub view-update_event_conflict :
      (ns : String) (e : Event) (w : api.World) {f : api.Error}
      → (api.update_event ns e w).0 ≡ some f
      → api.is_conflict f ≡ true
      → view (api.update_event ns e w).1 ≡ view w
  pub view-create_secret :
      (ns : String) (s : Secret) (w : api.World)
      → (api.create_secret ns s w).0 ≡ none
      → view (api.create_secret ns s w).1 ≡ put_target_secret ns s.name (some s) (view w)
  -- A create that finds an object of the name changes nothing.
  pub view-create_secret_exists :
      (ns : String) (s : Secret) (w : api.World) {e : api.Error}
      → (api.create_secret ns s w).0 ≡ some e
      → api.is_already_exists e ≡ true
      → view (api.create_secret ns s w).1 ≡ view w
  pub view-update_secret :
      (ns : String) (s : Secret) (w : api.World)
      → (api.update_secret ns s w).0 ≡ none
      → view (api.update_secret ns s w).1 ≡ put_target_secret ns s.name (some s) (view w)

-- The caches of the listers agree with the API servers.
pub record IsFresh (api : Api) (lawful : IsLawful api) : Type 0 where
  pub target_found :
      (ns n : String) (w : api.World) (i : Ingress)
      → (api.target_ingress ns n w).0 ≡ ok i
      → (lawful.view w).target_ingresses ns n ≡ some i
  pub target_missing :
      (ns n : String) (w : api.World) (e : api.Error)
      → (api.target_ingress ns n w).0 ≡ err e
      → api.is_not_found e ≡ true
      → (lawful.view w).target_ingresses ns n ≡ none
  pub control_found :
      (ns n : String) (w : api.World) (i : Ingress)
      → (api.control_ingress ns n w).0 ≡ ok i
      → (lawful.view w).control_ingresses ns n ≡ some i
  pub control_missing :
      (ns n : String) (w : api.World) (e : api.Error)
      → (api.control_ingress ns n w).0 ≡ err e
      → api.is_not_found e ≡ true
      → (lawful.view w).control_ingresses ns n ≡ none
