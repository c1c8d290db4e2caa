-- ===== src/Template/Calls/Laws.antt =====
-- pkg/utils/controller-helper.go: which provider an Ingress gets from calls that overlap.
use cert_broker.Base.{String, List, ◌∷◌}
use cert_broker.Base.Text.{nonempty}
use cert_broker.Template.{IngressTemplate, create_control_ingress, annotation_pairs}
use cert_broker.Template.Calls.{
  Call, called, stored, tested, built, with_provider, store, test, finish, other, Advances, no_step,
  step, all_called,
}
use cert_broker.Template.Calls.Invariant.{alone}

-- Of any two calls of CreateControlIngress that overlap, whatever other calls are under way, the
-- first can return the Ingress that it returns alone for the provider of the second.
pub Advances-mixed :
    (ingress_class : String) (t : IngressTemplate) (c c' : Call) (cs : List Call)
    → Advances ingress_class t (all_called (c ∷ c' ∷ cs)) (with_provider t c') (
        (c, built (alone ingress_class t c c'.dns_provider))
        ∷ (c', built (alone ingress_class t c' c'.dns_provider))
        ∷ all_called cs)
unfolding create_control_ingress annotation_pairs
Advances-mixed ingress_class t c c' cs =
    let l = all_called cs in
    let t' = with_provider t c' in
    let some_provider = nonempty c'.dns_provider in
    let first = step no_step (store t c ((c', called) ∷ l)) in
    let both = step first (other (c, stored) (store (with_provider t c) c' l)) in
    let tests = step (step both (test t' c ((c', stored) ∷ l))) (other _ (test t' c' l)) in
    step (step tests (finish t' c some_provider ((c', tested some_provider) ∷ l)))
      (other _ (finish t' c' some_provider l))
