-- ===== src/Tests/Data.antt =====
-- The resources that the tests run on: two clusters with one Ingress, its copy and its secret.
use cert_broker.Kube.Reliable.{IsReliable}
use cert_broker.Base.{
  Option, true, err, String, ◌≡◌, refl, ◌∙◌, sym, arith, none, some, [], ◌∷◌, eq_iff,
}
use cert_broker.Base.Slice.{Slice}
use cert_broker.Base.GoMap.{GoMap, lookup}
use cert_broker.Base.Int.{pos}
use cert_broker.Kube.{Ingress, IngressTls, Secret, Event, Certificate, OwnerReference}
use cert_broker.Kube.Api.{Api}
use cert_broker.Kube.Memory.{get, create_at, Setting, memory}
use cert_broker.Kube.Updates.{Fault, update_at-outdated, is_missing, is_exists}
use cert_broker.Kube.Store.{Store, Table, place}
use cert_broker.Broker.{Broker}
use cert_broker.Template.{IngressTemplate}
use cert_broker.Ingress.CopyTls.Order.{IsWellConfigured}

-- The labels of an Ingress that is managed.
abbrev pub purpose_labels : GoMap
purpose_labels = GoMap.made (("garden.sapcloud.io/purpose", "managed-cert") ∷ [])

abbrev pub shop_tls : IngressTls
shop_tls = record { hosts = Slice.made ("a.x" ∷ []); secret_name = "tls" }

-- The Ingress of the target cluster; its one host is managed.
abbrev pub shop : Ingress
shop = record {
  name = "web";
  namespace = "shop";
  labels = purpose_labels;
  annotations = GoMap.nil;
  tls = Slice.made (shop_tls ∷ []);
  rule_hosts = [];
}

-- An Ingress with a host that is not managed.
abbrev pub stray : Ingress
stray = record shop {
  tls = Slice.made (record { hosts = Slice.made ("a.x" ∷ "b.y" ∷ []); secret_name = "tls" } ∷ []);
}

-- The copy of `shop` in the control cluster, with an older TLS section.
abbrev pub old_copy : Ingress
old_copy = record {
  name = "managed-cert.shop.web";
  namespace = "control";
  labels = GoMap.nil;
  annotations = GoMap.made (("certmanager.k8s.io/acme-dns01-provider", "aws") ∷ []);
  tls =
      Slice.made
        (record { hosts = Slice.made ("old.x" ∷ []); secret_name = "managed-cert.shop.tls" } ∷ []);
  rule_hosts = "managed-cert" ∷ [];
}

-- The same without annotations.
abbrev pub bare_copy : Ingress
bare_copy = record old_copy { annotations = GoMap.nil }

-- The secret of the certificate in the control cluster.
abbrev pub tls_secret : Secret
tls_secret = record {
  name = "managed-cert.shop.tls";
  namespace = "control";
  labels = GoMap.nil;
  annotations = GoMap.nil;
  content = GoMap.made (("tls.crt", "PEM") ∷ []);
}

abbrev pub owner : OwnerReference
owner = record {
  api_version = "extensions/v1beta1";
  kind = "Ingress";
  name = "managed-cert.shop.web";
}

-- An event about a certificate of the control cluster.
abbrev pub renewal : Event
renewal = record {
  name = "renewal";
  namespace = "control";
  resource_version = "7";
  annotations = GoMap.nil;
  involved_object = record {
    api_version = "certmanager.k8s.io";
    kind = "Certificate";
    namespace = "control";
    name = "cert";
  };
  count = pos 2;
  kind = "Normal";
  reason = "Renew";
  message = "renewed";
}

abbrev pub empty_table : {A : Type 0} → Table A
empty_table namespace name = none

-- Before the first Sync.
abbrev pub before : Store
before = record {
  target_ingresses = place empty_table "shop" "web" (some shop);
  target_secrets = empty_table;
  control_ingresses = empty_table;
  control_secrets = place empty_table "control" "managed-cert.shop.tls" (some tls_secret);
  control_events = place empty_table "control" "renewal" (some renewal);
  notices = [];
}

-- After the Ingress of the target cluster was deleted.
abbrev pub orphaned : Store
orphaned = record before {
  target_ingresses = empty_table;
  control_ingresses = place empty_table "control" "managed-cert.shop.web" (some old_copy);
}

abbrev pub template : IngressTemplate
template = record { issuer_name = "issuer"; challenge_type = "dns01"; dns01_provider = "" }

abbrev pub setting : Setting
setting = record { certificate = Certificate.unstructured (owner ∷ []); listed = shop ∷ [] }

abbrev pub world : Api
world = memory setting

abbrev pub start : Broker Store
start = record { world = before; template = template }

abbrev pub orphaned_start : Broker Store
orphaned_start = record { world = orphaned; template = template }

-- One domain, with its provider.
abbrev pub domains : GoMap
domains = GoMap.made (("x", "gcp") ∷ [])

only_domain : (d p : String) → lookup d (("x", "gcp") ∷ []) ≡ some p → p ≡ "gcp"
unfolding lookup
only_domain d p h = ground (arith, eq_iff "x" d)

pub domains-IsWellConfigured : IsWellConfigured world domains
unfolding lookup
domains-IsWellConfigured = record {
  ranges = λ w. record { nodup = (refl, tt); same = λ k. refl };
  nodup = (refl, tt);
  unambiguous = λ host d p d' p' h h' e e'. only_domain d p h ∙ sym (only_domain d' p' h');
  named = λ d p h. rw (only_domain d p h) refl;
}

always_missing : {A : Type 0} (o : Option A) (e : Fault) → get o ≡ err e → is_missing e ≡ true
always_missing o e h = ground arith

always_exists :
    (o : Option Secret) (f : Store → Store) (s : Store) (e : Fault)
    → (create_at o f s).0 ≡ some e
    → is_exists e ≡ true
always_exists none f s e h = absurd (cc h)
always_exists (some old) f s e h = ground arith

pub memory-IsReliable : (c : Setting) → IsReliable (memory c)
memory-IsReliable c = record {
  target_reads = λ ns n w e h. always_missing (w.target_ingresses ns n) e h;
  control_reads = λ ns n w e h. always_missing (w.control_ingresses ns n) e h;
  creates = λ ns i w. refl;
  updates = λ ns i w. refl;
  ingress_deletes = λ ns n w. refl;
  secret_deletes = λ ns n w. refl;
  secret_creates = λ ns x w e h. always_exists _ _ w e h;
  secret_updates = λ ns x w. refl;
  event_updates = λ ns e w f h. update_at-outdated _ ns e w f h;
}

pub world-IsReliable : IsReliable world
world-IsReliable = memory-IsReliable setting
