-- ===== src/Kube/Versioned.antt =====
-- The versions of the events in the control cluster, as the API server keeps them: an update of the
-- current version is accepted and makes a new version if it changes the event, and one of another
-- version is refused as a conflict.
use cert_broker.Base.{String, true, ◌≡◌, ◌≢◌, none, some}
use cert_broker.Base.Text.{nonempty}
use cert_broker.Kube.{Event}
use cert_broker.Kube.Api.{Api}
use cert_broker.Kube.Laws.{IsLawful}

pub record IsVersioned (api : Api) (lawful : IsLawful api) : Type 0 where
  pub accepts :
      (ns : String) (e old : Event) (w : api.World)
      → (lawful.view w).control_events ns e.name ≡ some old
      → old.resource_version ≡ e.resource_version
      → (api.update_event ns e w).0 ≡ none
  pub changes :
      (ns : String) (e old new : Event) (w : api.World)
      → (lawful.view w).control_events ns e.name ≡ some old
      → old.resource_version ≡ e.resource_version
      → old ≢ e
      → (lawful.view (api.update_event ns e w).1).control_events ns e.name ≡ some new
      → new.resource_version ≢ e.resource_version
  -- An update that names no version is not refused.
  pub refuses :
      (ns : String) (e old : Event) (w : api.World)
      → (lawful.view w).control_events ns e.name ≡ some old
      → old.resource_version ≢ e.resource_version
      → nonempty e.resource_version ≡ true
      → (f : api.Error) × ((api.update_event ns e w).0 ≡ some f) × (api.is_conflict f ≡ true)
