-- ===== src/Kube/Annotated.antt =====
-- Tables of Ingress resources in which none has lost its annotations.
use cert_broker.Base.{String, ◌==◌, ◌&&◌, ◌≡◌, ◌≢◌, ap, arith, none, some, inl, inr, Bool-cases}
use cert_broker.Base.GoMap.{GoMap}
use cert_broker.Kube.{Ingress}
use cert_broker.Kube.Api.{Api}
use cert_broker.Kube.Laws.{IsLawful}
use cert_broker.Broker.{Broker}
use cert_broker.Kube.Store.{Store, Table, place}

abbrev pub Annotated : Table Ingress → Type 0
Annotated t = (ns n : String) (i : Ingress) → t ns n ≡ some i → i.annotations ≢ GoMap.nil

pub Annotated-place :
    (t : Table Ingress) (ns n : String) (i : Ingress)
    → i.annotations ≢ GoMap.nil
    → Annotated t
    → Annotated (place t ns n (some i))
Annotated-place t ns n i a all ns' n' c e = elim (Bool-cases (ns == ns' && n == n')) [
  | inl m ↦ let same : i ≡ c = ground (arith, e, m) in rw (← same) a
  | inr m ↦ all ns' n' c (ground (arith, e, m))
]

pub Annotated-remove :
    (t : Table Ingress) (ns n : String) → Annotated t → Annotated (place t ns n none)
Annotated-remove t ns n all ns' n' c e = elim (Bool-cases (ns == ns' && n == n')) [
  | inl m ↦ absurd (ground (arith, e, m))
  | inr m ↦ all ns' n' c (ground (arith, e, m))
]

pub copies_of_view : {st st' : Store} → st ≡ st' → st.control_ingresses ≡ st'.control_ingresses
copies_of_view e = ap (λ (x : Store). x.control_ingresses) e

-- No Ingress of the control cluster has nil annotations.
abbrev pub AllAnnotated : {api : Api} → IsLawful api → Broker api.World → Type 0
AllAnnotated lawful s = Annotated (lawful.view s.world).control_ingresses
