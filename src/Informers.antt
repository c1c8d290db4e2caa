-- ===== src/Informers.antt =====
-- The informers that cmd/controller-manager.go creates, which of them each controller waits for before
-- it starts its workers, and the listers over caches that have not synced.
pub mod Synced
pub mod Unsynced
pub mod Registration
use cert_broker.Base.{String, Bool, true, false, List, [], ◌∷◌, Result, ok, err, ◌≡◌}
use cert_broker.Kube.{Ingress}
use cert_broker.Kube.Api.{Api}

pub data Informer : Type 0 where
  target_ingresses control_ingresses control_secrets control_events certificates : Informer

-- GetInformerSyncs of pkg/ingress/sync.go
abbrev pub ingress_informer_syncs : List Informer
ingress_informer_syncs = control_ingresses ∷ control_secrets ∷ target_ingresses ∷ []

-- GetInformerSyncs of pkg/secret/sync.go
abbrev pub secret_informer_syncs : List Informer
secret_informer_syncs = control_secrets ∷ []

-- GetInformerSyncs of pkg/events/sync.go
abbrev pub event_informer_syncs : List Informer
event_informer_syncs = certificates ∷ control_events ∷ target_ingresses ∷ []

-- The arguments of WaitForCacheSync in Start of pkg/cleaner/controller.go
abbrev pub cleaner_informer_syncs : List Informer
cleaner_informer_syncs = target_ingresses ∷ control_ingresses ∷ []

-- All informers of the list have synced, as after WaitForCacheSync.
abbrev pub AllSynced : (Informer → Bool) → List Informer → Type 0
AllSynced has_synced [] = Unit {0}
AllSynced has_synced (i ∷ l) = (has_synced i ≡ true) × AllSynced has_synced l

-- The lister of a cache that has not synced here holds nothing: a get finds nothing, with the error
-- `missing`, and a list is empty.
abbrev pub gated : {E A W : Type 0} → Bool → E → (W → Result E A × W) → W → Result E A × W
gated true missing read w = read w
gated false missing read w = (err missing, w)

abbrev pub gated_list :
    {E A W : Type 0} → Bool → (W → Result E (List A) × W) → W → Result E (List A) × W
gated_list true list w = list w
gated_list false list w = (ok [], w)

-- The calls through the caches of the informers.
abbrev pub cached : (api : Api) → (Informer → Bool) → api.Error → Api
cached api has_synced missing = record api {
  target_ingress = λ ns n. gated (has_synced target_ingresses) missing (api.target_ingress ns n);
  control_ingress = λ ns n. gated (has_synced control_ingresses) missing (api.control_ingress ns n);
  control_secret = λ ns n. gated (has_synced control_secrets) missing (api.control_secret ns n);
  control_event = λ ns n. gated (has_synced control_events) missing (api.control_event ns n);
  control_certificate =
      λ ns n. gated (has_synced certificates) missing (api.control_certificate ns n);
  target_ingresses = λ ns l. gated_list (has_synced target_ingresses) (api.target_ingresses ns l);
}
