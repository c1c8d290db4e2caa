-- ===== src/Kube/Memory.antt =====
-- A world that meets the laws: the tables themselves, with listers that read them and one error for
-- what is missing and one for what is there already. `certificate` answers for every certificate.
use Prim.Native.Nat.{compare, Ordering}
use Prim.Native.Char.{Char, code}
use Prim.Native.String.{[], ◌∷◌, ◌++◌ as ◌<>◌}
use cert_broker.Base.Text.{prepend}
use cert_broker.Base.{
  ◌≡◌, arith, String, Bool, true, false, refl, Option, none, some, List, Result, ok, err,
  if◌then◌else◌,
}
use cert_broker.Base.GoMap.{pairs}
use cert_broker.Kube.Versioned.{IsVersioned}
use cert_broker.Kube.{Ingress, Secret, Certificate, Object, as_meta}
use cert_broker.Kube.Api.{Api}
use cert_broker.Kube.Store.{
  Store, put_control_ingress, put_control_secret, put_target_secret, notify,
}
use cert_broker.Kube.Laws.{IsLawful, IsFresh}
use cert_broker.Kube.Updates.{
  Fault, missing, exists, outdated, bad_key, is_missing, is_exists, is_outdated, update_at,
  update_at-none, update_at-some, update_at-accepts, update_at-changes, update_at-refuses,
}

abbrev pub get : {A : Type 0} → Option A → Result Fault A
get none = err missing
get (some a) = ok a

abbrev pub key_of : Object → Result Fault String
key_of (Object.tombstone k) = ok k
key_of obj = elim (as_meta obj) [ none ↦ err bad_key | some (n, ns) ↦ ok (ns <> ("/" <> n)) ]

abbrev is_slash : Char → Bool
is_slash c = elim (compare (code c) b'/') [ Ordering.eq ↦ true | _ ↦ false ]

-- The text before the first slash and the text after it.
abbrev cut_at_slash : String → Option (String × String)
cut_at_slash [] = none
cut_at_slash (c ∷ s) =
    let rest = cut_at_slash s in if is_slash c then some ([], s) else prepend c rest

-- A key is a name, or a namespace and a name with a slash between them.
abbrev pub split_key : String → Result Fault (String × String)
split_key key = elim (cut_at_slash key) [
  | none ↦ ok ("", key)
  | some (namespace, name) ↦ elim (cut_at_slash name) [
    | none ↦ ok (namespace, name)
    | some more ↦ err bad_key
  ]
]

abbrev pub create_at : Option Secret → (Store → Store) → Store → Option Fault × Store
create_at none f s = (none, f s)
create_at (some old) f s = (some exists, s)

pub get-ok : {A : Type 0} (o : Option A) (a : A) → get o ≡ ok a → o ≡ some a
get-ok o a h = ground arith

pub get-err : {A : Type 0} (o : Option A) (e : Fault) → get o ≡ err e → o ≡ none
get-err o e h = ground arith

pub create_at-none :
    (o : Option Secret) (f : Store → Store) (s : Store)
    → (create_at o f s).0 ≡ none
    → (create_at o f s).1 ≡ f s
create_at-none none f s h = refl
create_at-none (some old) f s h = absurd (cc h)

pub create_at-some :
    (o : Option Secret) (f : Store → Store) (s : Store) (e : Fault)
    → (create_at o f s).0 ≡ some e
    → (create_at o f s).1 ≡ s
create_at-some none f s e h = absurd (cc h)
create_at-some (some old) f s e h = refl

pub record Setting : Type 0 where
  pub certificate : Certificate
  pub listed : List Ingress

module _ (c : Setting) where
  abbrev pub memory : Api
  memory = record {
    World = Store;
    Error = Fault;
    Selector = Unit {0};
    is_not_found = is_missing;
    is_already_exists = is_exists;
    is_conflict = is_outdated;
    split_meta_namespace_key = split_key;
    meta_namespace_key = key_of;
    deletion_meta_namespace_key = key_of;
    target_ingress = λ ns n s. (get (s.target_ingresses ns n), s);
    control_ingress = λ ns n s. (get (s.control_ingresses ns n), s);
    control_secret = λ ns n s. (get (s.control_secrets ns n), s);
    control_event = λ ns n s. (get (s.control_events ns n), s);
    control_certificate = λ ns n s. (ok c.certificate, s);
    label_selector = λ m. ok tt;
    target_ingresses = λ ns l s. (ok c.listed, s);
    create_ingress = λ ns i s. (none, put_control_ingress ns i.name (some i) s);
    update_ingress = λ ns i s. (none, put_control_ingress ns i.name (some i) s);
    delete_ingress = λ ns n s. (none, put_control_ingress ns n none s);
    delete_secret = λ ns n s. (none, put_control_secret ns n none s);
    update_event = λ ns e s. update_at (s.control_events ns e.name) ns e s;
    create_secret =
        λ ns x s. create_at (s.target_secrets ns x.name) (put_target_secret ns x.name (some x)) s;
    update_secret = λ ns x s. (none, put_target_secret ns x.name (some x) s);
    record_event = λ i t r m s. (tt, notify i t r m s);
    range = λ m s. (pairs m, s);
  }

  abbrev pub memory-IsLawful : IsLawful memory
  memory-IsLawful = record {
    view = λ s. s;
    view-target_ingress = λ ns n w. refl;
    view-control_ingress = λ ns n w. refl;
    view-control_secret = λ ns n w. refl;
    view-control_event = λ ns n w. refl;
    view-control_certificate = λ ns n w. refl;
    view-target_ingresses = λ ns l w. refl;
    view-range = λ m w. refl;
    view-record_event = λ i t r m w. refl;
    view-create_ingress = λ ns i w h. refl;
    view-update_ingress = λ ns i w h. refl;
    view-delete_ingress = λ ns n w h. refl;
    view-delete_secret = λ ns n w h. refl;
    view-update_event = λ ns e w h. update_at-none _ ns e w h;
    view-update_event_conflict = λ ns e w {f} h k. update_at-some _ ns e w f h;
    view-create_secret = λ ns x w h. create_at-none _ _ w h;
    view-create_secret_exists = λ ns x w {e} h k. create_at-some _ _ w e h;
    view-update_secret = λ ns x w h. refl;
  }

  abbrev pub memory-IsVersioned : IsVersioned memory memory-IsLawful
  memory-IsVersioned = record {
    accepts = λ ns e old w h same. update_at-accepts _ ns e old w h same;
    changes = λ ns e old new w h same other at. update_at-changes _ ns e old new w h same at;
    refuses = λ ns e old w h other n. (outdated, update_at-refuses _ ns e old w h other, refl);
  }

  abbrev pub memory-IsFresh : IsFresh memory memory-IsLawful
  memory-IsFresh = record {
    target_found = λ ns n w i h. get-ok _ i h;
    target_missing = λ ns n w e h k. get-err _ e h;
    control_found = λ ns n w i h. get-ok _ i h;
    control_missing = λ ns n w e h k. get-err _ e h;
  }
