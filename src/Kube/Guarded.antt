-- ===== src/Kube/Guarded.antt =====
-- Calls that keep an invariant of the world, and what they may read and write: no lister hands out an
-- Ingress of the control cluster with nil annotations as long as none is written.
use cert_broker.Base.{String, ◌≡◌, ◌≢◌, ok, inl, inr, Option-cases}
use cert_broker.Base.GoMap.{GoMap}
use cert_broker.Kube.{Ingress, Secret, Event}
use cert_broker.Kube.Api.{Api}
use cert_broker.Kube.Annotated.{Annotated, Annotated-place, Annotated-remove, copies_of_view}
use cert_broker.Kube.Laws.{IsLawful, IsFresh}
use cert_broker.Kube.Reliable.{IsReliable}
use cert_broker.Kube.Store.{Store}

pub record IsGuarded (api : Api) (Inv : api.World → Type 0) : Type 0 where
  pub keeps-target_ingress :
      (ns n : String) (w : api.World) → Inv w → Inv (api.target_ingress ns n w).1
  pub keeps-control_ingress :
      (ns n : String) (w : api.World) → Inv w → Inv (api.control_ingress ns n w).1
  pub keeps-control_secret :
      (ns n : String) (w : api.World) → Inv w → Inv (api.control_secret ns n w).1
  pub keeps-control_event :
      (ns n : String) (w : api.World) → Inv w → Inv (api.control_event ns n w).1
  pub keeps-control_certificate :
      (ns n : String) (w : api.World) → Inv w → Inv (api.control_certificate ns n w).1
  pub keeps-target_ingresses :
      (ns : String) (l : api.Selector) (w : api.World) → Inv w → Inv (api.target_ingresses ns l w).1
  pub keeps-range : (m : GoMap) (w : api.World) → Inv w → Inv (api.range m w).1
  pub keeps-record_event :
      (i : Ingress) (t r m : String) (w : api.World) → Inv w → Inv (api.record_event i t r m w).1
  pub keeps-create_ingress :
      (ns : String) (i : Ingress) (w : api.World)
      → i.annotations ≢ GoMap.nil
      → Inv w
      → Inv (api.create_ingress ns i w).1
  pub keeps-update_ingress :
      (ns : String) (i : Ingress) (w : api.World)
      → i.annotations ≢ GoMap.nil
      → Inv w
      → Inv (api.update_ingress ns i w).1
  pub keeps-delete_ingress :
      (ns n : String) (w : api.World) → Inv w → Inv (api.delete_ingress ns n w).1
  pub keeps-delete_secret :
      (ns n : String) (w : api.World) → Inv w → Inv (api.delete_secret ns n w).1
  pub keeps-update_event :
      (ns : String) (e : Event) (w : api.World) → Inv w → Inv (api.update_event ns e w).1
  pub keeps-create_secret :
      (ns : String) (s : Secret) (w : api.World) → Inv w → Inv (api.create_secret ns s w).1
  pub keeps-update_secret :
      (ns : String) (s : Secret) (w : api.World) → Inv w → Inv (api.update_secret ns s w).1
  pub reads_annotated :
      (ns n : String) (w : api.World) (i : Ingress)
      → Inv w
      → (api.control_ingress ns n w).0 ≡ ok i
      → i.annotations ≢ GoMap.nil

module _ (api : Api) (lawful : IsLawful api) where
  open lawful use {view}

  abbrev pub CopiesAnnotated : api.World → Type 0
  CopiesAnnotated w = Annotated (view w).control_ingresses

  -- A call that leaves the copies alone.
  untouched :
      {st : Store} {w : api.World}
      → view w ≡ st
      → Annotated st.control_ingresses
      → CopiesAnnotated w
  untouched e all = rw (copies_of_view e) all

  secret_untouched :
      (ns : String) (x : Secret) (w : api.World)
      → IsReliable api
      → CopiesAnnotated w
      → CopiesAnnotated (api.create_secret ns x w).1
  secret_untouched ns x w reliable all = elim (Option-cases (api.create_secret ns x w).0) [
    | inl e ↦ untouched (lawful.view-create_secret ns x w e) all
    | inr (f, e) ↦
        let exists = reliable.secret_creates ns x w f e in
        untouched (lawful.view-create_secret_exists ns x w e exists) all
  ]

  event_untouched :
      (ns : String) (x : Event) (w : api.World)
      → IsReliable api
      → CopiesAnnotated w
      → CopiesAnnotated (api.update_event ns x w).1
  event_untouched ns x w reliable all = elim (Option-cases (api.update_event ns x w).0) [
    | inl e ↦ untouched (lawful.view-update_event ns x w e).1 all
    | inr (f, e) ↦
        let stale = reliable.event_updates ns x w f e in
        untouched (lawful.view-update_event_conflict ns x w e stale) all
  ]

  -- Clusters that answer every call keep the annotations of the copies.
  pub IsGuarded-CopiesAnnotated :
      IsFresh api lawful → IsReliable api → IsGuarded api CopiesAnnotated
  IsGuarded-CopiesAnnotated fresh reliable = record {
    keeps-target_ingress = λ ns n w. untouched (lawful.view-target_ingress ns n w);
    keeps-control_ingress = λ ns n w. untouched (lawful.view-control_ingress ns n w);
    keeps-control_secret = λ ns n w. untouched (lawful.view-control_secret ns n w);
    keeps-control_event = λ ns n w. untouched (lawful.view-control_event ns n w);
    keeps-control_certificate = λ ns n w. untouched (lawful.view-control_certificate ns n w);
    keeps-target_ingresses = λ ns l w. untouched (lawful.view-target_ingresses ns l w);
    keeps-range = λ m w. untouched (lawful.view-range m w);
    keeps-record_event = λ i t r m w. untouched (lawful.view-record_event i t r m w);
    keeps-create_ingress = λ ns i w a all.
        untouched (lawful.view-create_ingress ns i w (reliable.creates ns i w))
          (Annotated-place (view w).control_ingresses ns i.name i a all);
    keeps-update_ingress = λ ns i w a all.
        untouched (lawful.view-update_ingress ns i w (reliable.updates ns i w))
          (Annotated-place (view w).control_ingresses ns i.name i a all);
    keeps-delete_ingress = λ ns n w all.
        untouched (lawful.view-delete_ingress ns n w (reliable.ingress_deletes ns n w))
          (Annotated-remove (view w).control_ingresses ns n all);
    keeps-delete_secret =
        λ ns n w. untouched (lawful.view-delete_secret ns n w (reliable.secret_deletes ns n w));
    keeps-update_event = λ ns e w. event_untouched ns e w reliable;
    keeps-create_secret = λ ns x w. secret_untouched ns x w reliable;
    keeps-update_secret =
        λ ns x w. untouched (lawful.view-update_secret ns x w (reliable.secret_updates ns x w));
    reads_annotated = λ ns n w i all e. all ns n i (fresh.control_found ns n w i e);
  }
