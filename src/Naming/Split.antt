-- ===== src/Naming/Split.antt =====
-- pkg/utils/naming.go: SplitNamespace against a description of the names, and against the names that
-- are created.
use Prim.Native.Char.{Char}
use Prim.Native.String.{[], ◌∷◌, ◌++◌}
use text.Mathlib.TextEquality.{Char-path}
use text.Mathlib.TextLemmas.{nil-append, cons-append}
use cert_broker.Base.{◌↔◌, String, Bool, true, ◌≡◌, refl, none, some, arith, ap, ◌∙◌, sym}
use cert_broker.Base.{not, ◌&&◌, Option-cases, Bool-cases, inl, inr}
use cert_broker.Base.Text.{cut, is_dot}
use cert_broker.Naming.{split_namespace, create_name_for_control_cluster}

abbrev dot : Char
dot = "."

dot-append : (b : String) → "." ++ b ≡ dot ∷ b
dot-append b = cons-append dot [] b ∙ ap (λ (t : String). dot ∷ t) (nil-append b)

is_dot_sound : (c : Char) → is_dot c ≡ true → c ≡ dot
is_dot_sound c h = Char-path c dot (ground arith)

-- No dot occurs.
unfoldable pub dot_free : String → Bool
dot_free [] = true
dot_free (c ∷ s) = not (is_dot c) && dot_free s

pub cut-append : (a b : String) → dot_free a ≡ true → cut (a ++ ("." ++ b)) ≡ some (a, b)
unfolding cut dot_free
cut-append [] b h = rw (nil-append, dot-append) refl
cut-append (c ∷ a) b h = rw cons-append (ground (arith, cut-append a b))

pub cut_of_dot_free : (s : String) → dot_free s ≡ true → cut s ≡ none
unfolding cut dot_free
cut_of_dot_free [] h = refl
cut_of_dot_free (c ∷ s) h = ground (arith, cut_of_dot_free s)

pub dot_free_of_cut : (s : String) → cut s ≡ none → dot_free s ≡ true
unfolding cut dot_free
dot_free_of_cut [] h = refl
dot_free_of_cut (c ∷ s) h = ground (arith, dot_free_of_cut s)

-- The two parts of a text that has a dot.
pub cut-some : (s a b : String) → cut s ≡ some (a, b) → (s ≡ a ++ ("." ++ b)) × (dot_free a ≡ true)
unfolding cut dot_free
cut-some [] a b h = absurd (cc h)
cut-some (c ∷ s) a b h = elim (Bool-cases (is_dot c)) [
  | inl d ↦
      let ea : a ≡ [] = ground arith in
      let eb : b ≡ s = ground arith in
      rw (ea, eb, nil-append, dot-append, is_dot_sound c d) (refl, refl)
  | inr d ↦ elim (Option-cases (cut s)) [
    | inl e ↦ absurd (ground arith)
    | inr ((a', b'), e) ↦
        let ea : a ≡ c ∷ a' = ground arith in
        let eb : b ≡ b' = ground arith in
        let ih : (s ≡ a' ++ ("." ++ b')) × (dot_free a' ≡ true) = cut-some s a' b' e in
        rw (ea, eb, cons-append) (ap (λ (t : String). c ∷ t) ih.0, ground arith)
  ]
]

-- The three ways in which a name reads: its namespace and name in the target cluster.
pub data Reads : String → String → String → Type 0 where
  plain : (s : String) → dot_free s ≡ true → Reads s "" s
  dotted :
      (s a b : String) → s ≡ a ++ ("." ++ b) → dot_free a ≡ true → dot_free b ≡ true → Reads s "" ""
  prefixed :
      (s a namespace name : String)
      → s ≡ a ++ ("." ++ (namespace ++ ("." ++ name)))
      → dot_free a ≡ true
      → dot_free namespace ≡ true
      → Reads s namespace name

split_namespace_plain : (s : String) → cut s ≡ none → split_namespace s ≡ ("", s)
unfolding split_namespace
split_namespace_plain s e = ground arith

split_namespace_dotted :
    (s a b : String) → cut s ≡ some (a, b) → cut b ≡ none → split_namespace s ≡ ("", "")
unfolding split_namespace
split_namespace_dotted s a b e f = ground arith

split_namespace_prefixed :
    (s a b c d : String) → cut s ≡ some (a, b) → cut b ≡ some (c, d) → split_namespace s ≡ (c, d)
unfolding split_namespace
split_namespace_prefixed s a b c d e f = ground arith

-- What SplitNamespace returns for a text is a reading of it: a text without a dot is a name without
-- a namespace, one with a single dot yields two empty texts, and otherwise the namespace stands
-- between the first two dots and the name after them.
pub Reads-split_namespace :
    (s : String) → let (namespace, name) = split_namespace s in Reads s namespace name
Reads-split_namespace s = elim (Option-cases (cut s)) [
  | inl e ↦ rw (split_namespace_plain s e) (plain s (dot_free_of_cut s e))
  | inr ((a, r), e) ↦ elim (Option-cases (cut r)) [
    | inl e' ↦
        rw (split_namespace_dotted s a r e e')
          (dotted s a r (cut-some s a r e).0 (cut-some s a r e).1 (dot_free_of_cut r e'))
    | inr ((namespace, name), e') ↦ rw (split_namespace_prefixed s a r namespace name e e') (
        prefixed s a namespace name
          ((cut-some s a r e).0
            ∙ ap (λ (t : String). a ++ ("." ++ t)) (cut-some r namespace name e').0)
          (cut-some s a r e).1 (cut-some r namespace name e').1)
  ]
]

-- A text has at most one reading, and SplitNamespace returns it.
pub split_namespace-eq_of_Reads :
    {s namespace name : String} → Reads s namespace name → split_namespace s ≡ (namespace, name)
split_namespace-eq_of_Reads (plain s h) = split_namespace_plain s (cut_of_dot_free s h)
split_namespace-eq_of_Reads (dotted s a b e ha hb) =
    split_namespace_dotted s a b (rw e (cut-append a b ha)) (cut_of_dot_free b hb)
split_namespace-eq_of_Reads (prefixed s a namespace name e ha hn) =
    split_namespace_prefixed s a (namespace ++ ("." ++ name)) namespace name
      (rw e (cut-append a (namespace ++ ("." ++ name)) ha)) (cut-append namespace name hn)

-- SplitNamespace returns a namespace and a name for a text exactly if they are a reading of it: a
-- text without a dot is a name without a namespace, one with a single dot yields two empty texts,
-- and otherwise the namespace stands between the first two dots and the name after them.
pub split_namespace_iff :
    (s namespace name : String) → (split_namespace s ≡ (namespace, name)) ↔ Reads s namespace name
split_namespace_iff s namespace name =
    (λ e. rw e at (Reads-split_namespace s), λ r. split_namespace-eq_of_Reads r)

-- The name that is created for a resource of the target cluster, whose namespace has no dot, is
-- read back as the namespace and the name of that resource.
pub split_namespace-create_name_for_control_cluster :
    (namespace name : String)
    → dot_free namespace ≡ true
    → split_namespace (create_name_for_control_cluster namespace name) ≡ (namespace, name)
unfolding create_name_for_control_cluster dot_free
split_namespace-create_name_for_control_cluster namespace name h =
    split_namespace-eq_of_Reads (prefixed _ "managed-cert" namespace name refl refl h)

-- Two resources of the target cluster whose namespaces have no dot share a name in the control
-- cluster only if their namespaces and names are equal.
pub create_name_for_control_cluster-injective :
    (ns name ns' name' : String)
    → dot_free ns ≡ true
    → dot_free ns' ≡ true
    → create_name_for_control_cluster ns name ≡ create_name_for_control_cluster ns' name'
    → (ns ≡ ns') × (name ≡ name')
create_name_for_control_cluster-injective ns name ns' name' h h' e =
    let both : (ns, name) ≡ (ns', name') =
      sym (split_namespace-create_name_for_control_cluster ns name h)
      ∙ ap split_namespace e
      ∙ split_namespace-create_name_for_control_cluster ns' name' h' in
    (ap (λ (p : String × String). p.0) both, ap (λ (p : String × String). p.1) both)
