-- ===== src/Kube/Logged.antt =====
-- Calls that note their failures, the last one first, but for the answers that the handlers expect:
-- that a resource is not found, of a read or a delete, and that a secret is there already, of its
-- create.
use cert_broker.Base.{
  Bool, false, Option, none, some, List, ◌∷◌, Result, ok, err, if◌then◌else◌, ◌≡◌, ◌∙◌, ap,
}
use cert_broker.Base.Exec.{Exec, Outcome, returned, panicked}
use cert_broker.Kube.Api.{Api}
use cert_broker.Broker.{Broker}

module _ {E : Type 0} where
  abbrev pub noted : Option E → List E → List E
  noted none log = log
  noted (some e) log = e ∷ log

  abbrev pub unless : (E → Bool) → Option E → Option E
  unless expected none = none
  unless expected (some e) = if expected e then none else some e

  abbrev pub never : E → Bool
  never e = false

  abbrev pub failure : {A : Type 0} → Result E A → Option E
  failure (ok a) = none
  failure (err e) = some e

  module _ {W : Type 0} (expected : E → Bool) where
    abbrev pub noting_read :
        {A : Type 0} → (W → Result E A × W) → W × List E → Result E A × (W × List E)
    noting_read f (w, log) = let (r, w') = f w in (r, (w', noted (unless expected (failure r)) log))

    abbrev pub noting_write : (W → Option E × W) → W × List E → Option E × (W × List E)
    noting_write f (w, log) = let (r, w') = f w in (r, (w', noted (unless expected r) log))

abbrev pub passing : {W L A : Type 0} → (W → A × W) → W × L → A × (W × L)
passing f (w, log) = let (a, w') = f w in (a, (w', log))

abbrev pub logged : Api → Api
logged api = record api {
  World = api.World × List api.Error;
  target_ingress = λ ns n. noting_read api.is_not_found (api.target_ingress ns n);
  control_ingress = λ ns n. noting_read api.is_not_found (api.control_ingress ns n);
  control_secret = λ ns n. noting_read api.is_not_found (api.control_secret ns n);
  control_event = λ ns n. noting_read never (api.control_event ns n);
  control_certificate = λ ns n. noting_read never (api.control_certificate ns n);
  target_ingresses = λ ns l. noting_read never (api.target_ingresses ns l);
  create_ingress = λ ns i. noting_write never (api.create_ingress ns i);
  update_ingress = λ ns i. noting_write never (api.update_ingress ns i);
  delete_ingress = λ ns n. noting_write api.is_not_found (api.delete_ingress ns n);
  delete_secret = λ ns n. noting_write api.is_not_found (api.delete_secret ns n);
  update_event = λ ns e. noting_write never (api.update_event ns e);
  create_secret = λ ns x. noting_write api.is_already_exists (api.create_secret ns x);
  update_secret = λ ns x. noting_write never (api.update_secret ns x);
  record_event = λ i t r m. passing (api.record_event i t r m);
  range = λ m. passing (api.range m);
}

-- The error of what a handler returns; one that panics returns none.
abbrev pub reported : {E A : Type 0} → (A → Option E) → Outcome A → Option E
reported error (returned a) = error a
reported error panicked = none

abbrev pub log : {W E : Type 0} → Broker (W × List E) → List E
log s = s.world.1

module _ (api : Api) where
  -- The failures that a run of the code notes are the error that it returns.
  abbrev pub ReportsIn :
      {A : Type 0} → (A → Option api.Error) → Exec (Broker (api.World × List api.Error)) A → Type 0
  ReportsIn error m =
      (s : Broker (api.World × List api.Error))
      → log (m s).1 ≡ noted (reported error (m s).0) (log s)

  abbrev pub Reports : Exec (Broker (api.World × List api.Error)) (Option api.Error) → Type 0
  Reports = ReportsIn (λ e. e)

pub log-outcome :
    {E A : Type 0} (error : A → Option E) (l : List E) {l' : List E} {r o : Outcome A}
    → l' ≡ noted (reported error r) l
    → r ≡ o
    → l' ≡ noted (reported error o) l
log-outcome error l grown e = grown ∙ ap (λ r. noted (reported error r) l) e
