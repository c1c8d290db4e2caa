-- ===== src/Filter/Laws.antt =====
-- pkg/utils/controller-helper.go: which resources FilterMethod lets through.
use Prim.Native.String.{◌++◌}
use cert_broker.Base.{String, true, ◌≡◌, ◌↔◌, arith, some, eq_iff}
use cert_broker.Base.Text.{nonempty}
use cert_broker.Kube.{Object, as_meta}
use cert_broker.Naming.{split_namespace}
use cert_broker.Naming.Split.{
  dot_free, Reads, plain, dotted, prefixed, Reads-split_namespace, split_namespace-eq_of_Reads,
}
use cert_broker.Filter.{ControlClusterResourceFilter, accepts, filter_method}

-- A name made of a prefix without a dot, a namespace without a dot and a name, the last two not
-- empty.
pub record IsControlName (s : String) : Type 0 where
  pub start : String
  pub namespace : String
  pub name : String
  pub form : s ≡ start ++ ("." ++ (namespace ++ ("." ++ name)))
  pub start_dot_free : dot_free start ≡ true
  pub namespace_dot_free : dot_free namespace ≡ true
  pub namespace_nonempty : nonempty namespace ≡ true
  pub name_nonempty : nonempty name ≡ true

IsControlName-of_Reads :
    {s namespace name : String}
    → Reads s namespace name
    → nonempty namespace ≡ true
    → nonempty name ≡ true
    → IsControlName s
IsControlName-of_Reads (plain s h) hns hn = absurd (cc hns)
IsControlName-of_Reads (dotted s a b e ha hb) hns hn = absurd (cc hns)
IsControlName-of_Reads (prefixed s a namespace name e ha hb) hns hn = record {
  start = a;
  namespace = namespace;
  name = name;
  form = e;
  start_dot_free = ha;
  namespace_dot_free = hb;
  namespace_nonempty = hns;
  name_nonempty = hn;
}

module _ (f : ControlClusterResourceFilter) (obj : Object) (name namespace : String) where
  -- Of an object with a name and a namespace, the filter reads these two.
  filter_method-eq-accepts :
      as_meta obj ≡ some (name, namespace)
      → filter_method f obj ≡ accepts f name namespace (split_namespace name)
  unfolding filter_method
  filter_method-eq-accepts e = ground arith

  -- An object with a name and a namespace is let through exactly if its namespace is that of the
  -- filter and its name is made of a prefix without a dot, a namespace without a dot and a name,
  -- the last two not empty, with dots between them.
  pub filter_method_iff :
      as_meta obj ≡ some (name, namespace)
      → (filter_method f obj ≡ true) ↔ (IsControlName name × (namespace ≡ f.namespace))
  unfolding accepts
  filter_method_iff e =
      let (ns, n) = split_namespace name in
      (
        λ h.
            let h' : accepts f name namespace (split_namespace name) ≡ true =
              rw (filter_method-eq-accepts e) at h in
            (
              IsControlName-of_Reads (Reads-split_namespace name) (ground arith) (ground arith),
              ground (arith, eq_iff namespace f.namespace),
            ),
        λ (c, here).
            rw
              (
                filter_method-eq-accepts e,
                split_namespace-eq_of_Reads (
                    prefixed name c.start c.namespace c.name c.form c.start_dot_free
                      c.namespace_dot_free),
              )
              (ground (arith, c.namespace_nonempty, c.name_nonempty, eq_iff namespace f.namespace)),
      )
