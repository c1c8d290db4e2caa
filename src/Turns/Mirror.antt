-- ===== src/Turns/Mirror.antt =====
-- Runs of the Ingress controller for all Ingress resources of a list, as after the start of the program,
-- and the table of copies that they leave.
pub mod Runs
use cert_broker.Base.{
  String, ◌==◌, true, false, ◌≡◌, ◌≢◌, ◌⊎◌, refl, ◌∙◌, sym, ap, none, some, List, [], ◌∷◌, All, Any,
  Bool-cases, eq_iff, inl, inr, arith, ◌&&◌,
}
use cert_broker.Kube.{Ingress}
use cert_broker.Kube.Api.{Api}
use cert_broker.Kube.Annotated.{AllAnnotated}
use cert_broker.Kube.Store.{Store, Table, place, place_self, place_other, put_control_ingress}
use cert_broker.Kube.Laws.{IsLawful, IsFresh}
use cert_broker.Kube.Reliable.{IsReliable}
use cert_broker.Broker.{Broker}
use cert_broker.Template.{IngressTemplate, create_ingress_template, create_control_ingress}
use cert_broker.Naming.{create_name_for_control_cluster}
use cert_broker.Ingress.CopyTls.Effects.{quiet}
use cert_broker.Ingress.CopyTls.Order.{IsWellConfigured}
use cert_broker.Ingress.Sync.{Handler, sync}
use cert_broker.Ingress.Sync.Annotated.{IsSafe-sync}
use cert_broker.Ingress.Sync.Configured.{configured, Fixed-sync_ingress}
use cert_broker.Ingress.Sync.Effects.{selected, copied_ingress}
use cert_broker.Ingress.Sync.Settled.{sync-copied}
use cert_broker.Ingress.Sync.Totality.{sync-total}
use cert_broker.Base.Exec.{returned}
use cert_broker.Turns.Order.{IsNew, names, names-differ, copy-configured}

-- Keys with the Ingress resources that they name.
abbrev pub Work : Type 0
Work = List (String × Ingress)

abbrev pub sync_all : (api : Api) → Handler → Work → Broker api.World → Broker api.World
sync_all api h [] s = s
sync_all api h ((key, i) ∷ work) s = sync_all api h work (sync api h key s).1

abbrev pub AllDifferent : Work → Type 0
AllDifferent [] = Unit {0}
AllDifferent ((_, i) ∷ work) =
    All (λ (p : String × Ingress). names i ≢ names p.1) work × AllDifferent work

-- The name and the copy of an Ingress.
abbrev pub copy_name : Ingress → String
copy_name i = create_name_for_control_cluster i.namespace i.name

abbrev pub mirror_of : Handler → IngressTemplate → Ingress → Ingress
mirror_of h t i = (copied_ingress h t (copy_name i) i (selected h i)).1

module _ (h : Handler) (t : IngressTemplate) where
  -- The table with the copies.
  abbrev pub mirrored : Work → Table Ingress → Table Ingress
  mirrored [] table = table
  mirrored ((_, i) ∷ work) table =
      mirrored work (place table h.resource_namespace (copy_name i) (some (mirror_of h t i)))

  abbrev pub Apart : String → String × Ingress → Type 0
  Apart name (_, i) = (copy_name i == name) ≡ false

  mirrored-Apart :
      (work : Work) (name : String) (table : Table Ingress)
      → All (Apart name) work
      → mirrored work table h.resource_namespace name ≡ table h.resource_namespace name
  mirrored-Apart [] name table all = refl
  mirrored-Apart ((_, i) ∷ work) name table (d, all) =
      mirrored-Apart work name
        (place table h.resource_namespace (copy_name i) (some (mirror_of h t i))) all
      ∙ place_other table h.resource_namespace (copy_name i) name (some (mirror_of h t i)) d

  -- An entry that changes is that of a copy.
  pub mirrored-elsewhere :
      (work : Work) (ns name : String) (table : Table Ingress)
      → Any (λ (p : String × Ingress). (ns ≡ h.resource_namespace) × (name ≡ copy_name p.1)) work
        ⊎ (mirrored work table ns name ≡ table ns name)
  mirrored-elsewhere [] ns name table = inr refl
  mirrored-elsewhere ((_, i) ∷ work) ns name table =
      let table' = place table h.resource_namespace (copy_name i) (some (mirror_of h t i)) in
      elim (mirrored-elsewhere work ns name table') [
        | inl any ↦ inl (inr any)
        | inr e ↦ elim (Bool-cases (h.resource_namespace == ns && copy_name i == name)) [
          | inl m ↦ inl (
              inl (
                ground (arith, m, eq_iff h.resource_namespace ns),
                ground (arith, m, eq_iff (copy_name i) name),
              ))
          | inr m ↦ inr (e ∙ ground (arith, m))
        ]
      ]

  abbrev pub AllApart : Work → Type 0
  AllApart [] = Unit {0}
  AllApart ((_, i) ∷ work) = All (Apart (copy_name i)) work × AllApart work

  pub mirrored-All :
      (work : Work) (table : Table Ingress)
      → AllApart work
      → All
          (λ (p : String × Ingress).
            mirrored work table h.resource_namespace (copy_name p.1) ≡ some (mirror_of h t p.1))
          work
  mirrored-All [] table far = tt
  mirrored-All ((_, i) ∷ work) table (d, far) =
      let copy = some (mirror_of h t i) in
      let table' = place table h.resource_namespace (copy_name i) copy in
      (
        mirrored-Apart work (copy_name i) table' d
            ∙ place_self table h.resource_namespace (copy_name i) copy,
        mirrored-All work table' far,
      )
