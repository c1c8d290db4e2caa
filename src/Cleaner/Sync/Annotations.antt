-- ===== src/Cleaner/Sync/Annotations.antt =====
-- pkg/cleaner/controller.go: the annotations that syncHandler writes to an Ingress of the control
-- cluster.
use cert_broker.Base.{
  String, true, ◌≡◌, ◌≢◌, refl, ◌∙◌, ap, arith, Option, none, some, [], ◌∷◌, inl, inr, eq_iff,
  Option-cases,
}
use cert_broker.Base.Exec.{returned, panicked}
use cert_broker.Base.GoMap.{GoMap, Pairs, lookup, insert, lookup-insert, NodupKeys, find}
use cert_broker.Kube.{Ingress}
use cert_broker.Kube.Api.{Api}
use cert_broker.Kube.Store.{put_control_ingress, place_self}
use cert_broker.Kube.Laws.{IsLawful}
use cert_broker.Broker.{Broker}
use cert_broker.Template.{IngressTemplate, create_ingress_annotations, annotation_pairs, class_key}
use cert_broker.Template.Laws.{lookup-annotation_pairs}
use cert_broker.Ingress.CopyTls.Order.{RangesOver}
use cert_broker.Cleaner.Sync.{Controller, override, update_annotations}

-- The entries after the writes.
abbrev pub overridden : Pairs → Pairs → Pairs
overridden [] m = m
overridden ((k, v) ∷ l) m = overridden l (insert k v m)

pub override-made :
    (l m : Pairs) → override l (GoMap.made m) ≡ returned (GoMap.made (overridden l m))
unfolding override
override-made [] m = refl
override-made ((k, v) ∷ l) m = override-made l (insert k v m)

abbrev pub or_else : Option String → Option String → Option String
or_else none o = o
or_else (some v) o = some v

-- Every key of the list gets its value, and every other key keeps the value that it had.
pub lookup-overridden :
    (k : String) (l m : Pairs)
    → NodupKeys l
    → lookup k (overridden l m) ≡ or_else (lookup k l) (lookup k m)
unfolding lookup
lookup-overridden k [] m u = refl
lookup-overridden k ((j, v) ∷ l) m (fresh, u) =
    ground (arith, lookup-overridden k l (insert j v m) u, lookup-insert j k v m, eq_iff j k, fresh)

override-nil : (l : Pairs) → l ≢ [] → override l GoMap.nil ≡ panicked
unfolding override
override-nil [] f = absurd (f refl)
override-nil ((k, v) ∷ l) f = refl

ranged-ne-nil :
    (ingress_class : String) (t : IngressTemplate) (l : Pairs)
    → RangesOver l (annotation_pairs ingress_class t)
    → l ≢ []
unfolding lookup
ranged-ne-nil ingress_class t l r e =
    let here = lookup-annotation_pairs ingress_class t class_key in
    ground (arith, e, r.same class_key, here)

module _ (api : Api) (c : Controller) where
  -- The entries in the order in which this run ranges over them.
  abbrev pub ranged : Broker api.World → Pairs
  ranged s = (api.range (create_ingress_annotations c.ingress_class s.template) s.world).0

  -- If the range visits every annotation of the template once, then the update of an Ingress whose
  -- annotations are nil panics.
  pub update_annotations-panicked :
      (namespace : String) (control_ing : Ingress) (s : Broker api.World)
      → RangesOver (ranged s) (annotation_pairs c.ingress_class s.template)
      → control_ing.annotations ≡ GoMap.nil
      → (update_annotations api c namespace control_ing s).0 ≡ panicked
  unfolding update_annotations
  update_annotations-panicked namespace control_ing s r e =
      ground
        (arith, e, override-nil (ranged s) (ranged-ne-nil c.ingress_class s.template (ranged s) r))

module _ (api : Api) (lawful : IsLawful api) (c : Controller) (namespace : String)
    (control_ing : Ingress) where
  open lawful use {view, view-range, view-update_ingress}

  -- If the update of the annotations reports no error, then the Ingress is stored with the ranged
  -- entries written over its annotations, and nothing else has changed.
  pub update_annotations_effect :
      (m : Pairs) (s : Broker api.World)
      → control_ing.annotations ≡ GoMap.made m
      → (update_annotations api c namespace control_ing s).0 ≡ returned (true, none)
      → view (update_annotations api c namespace control_ing s).1.world
        ≡ put_control_ingress namespace control_ing.name
            (some (record control_ing { annotations = GoMap.made (overridden (ranged api c s) m) }))
            (view s.world)
  unfolding update_annotations
  update_annotations_effect m s e r =
      let ing : Ingress = record control_ing {
        annotations = GoMap.made (overridden (ranged api c s) m);
      } in
      let w = (api.range (create_ingress_annotations c.ingress_class s.template) s.world).1 in
      let put = api.update_ingress namespace ing w in
      elim (Option-cases put.0) [
        | inl f ↦ ground (
          arith,
          e,
          override-made (ranged api c s) m,
          f,
          view-update_ingress namespace ing w f
              ∙ ap (put_control_ingress namespace control_ing.name (some ing))
                  (view-range (create_ingress_annotations c.ingress_class s.template) s.world),
        )
        | inr (x, f) ↦ absurd (ground (arith, e, override-made (ranged api c s) m, f))
      ]

  -- If the calls keep the laws, the range visits every annotation of the template once, the
  -- annotations of the Ingress are not nil and the update reports no error, then the Ingress is
  -- stored with the value of the template for every annotation of the template, and with the value
  -- before for every other one.
  pub update_annotations-lookup :
      (m : Pairs) (s : Broker api.World)
      → RangesOver (ranged api c s) (annotation_pairs c.ingress_class s.template)
      → control_ing.annotations ≡ GoMap.made m
      → (update_annotations api c namespace control_ing s).0 ≡ returned (true, none)
      → (ing : Ingress) × ((view
              (update_annotations api c namespace control_ing s).1.world).control_ingresses
            namespace control_ing.name
          ≡ some ing)
        × ((k : String)
            → find ing.annotations k
              ≡ or_else (lookup k (annotation_pairs c.ingress_class s.template)) (lookup k m))
  update_annotations-lookup m s r e done = (
    record control_ing { annotations = GoMap.made (overridden (ranged api c s) m) },
    rw (update_annotations_effect m s e done)
        (place_self (view s.world).control_ingresses namespace control_ing.name _),
    λ k. rw (← r.same k) (lookup-overridden k (ranged api c s) m r.nodup),
  )
