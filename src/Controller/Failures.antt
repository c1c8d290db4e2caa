-- ===== src/Controller/Failures.antt =====
-- pkg/common/controller.go: the failures of a run of Sync, and what the worker does with
-- its key.
use cert_broker.Base.{
  String, true, ◌≡◌, refl, Bool, Option, none, some, List, [], ◌∷◌, ◌++◌, ◌⊎◌, inl, inr,
}
use cert_broker.Base.Exec.{Exec, Outcome, Outcome-cases, returned, panicked}
use cert_broker.Kube.Api.{Api}
use cert_broker.Kube.Logged.{log, log-outcome, Reports}
use cert_broker.Broker.{Broker}
use cert_broker.Queue.{key, Worker}
use cert_broker.Controller.{QueueCall, done, forget, add_rate_limited, process_next_work_item}
use cert_broker.Controller.Laws.{process_next_work_item_lem}

module _ (api : Api) where
  abbrev pub Logged : Type 0
  Logged = Broker (api.World × List api.Error)

  -- Of one item: a failure was noted and the key is added again, or none was and the key is forgotten,
  -- or none was and the run panics.
  abbrev pub IsRetried :
      String → Worker Logged QueueCall → Outcome Bool × Worker Logged QueueCall → Type 0
  IsRetried k w (r, w') =
      ((e : api.Error) × (log w'.state ≡ e ∷ log w.state)
        × (r ≡ returned true)
        × (w'.calls ≡ w.calls ++ done (key k) ∷ add_rate_limited (key k) ∷ []))
      ⊎ ((log w'.state ≡ log w.state)
          × (((r ≡ returned true) × (w'.calls ≡ w.calls ++ forget (key k) ∷ done (key k) ∷ []))
              ⊎ ((r ≡ panicked) × (w'.calls ≡ w.calls ++ done (key k) ∷ []))))

  pub Reports-IsRetried :
      (sync : String → Exec Logged (Option api.Error)) (k : String) (w : Worker Logged QueueCall)
      → Reports api (sync k)
      → IsRetried k w (process_next_work_item sync (some (key k)) w)
  Reports-IsRetried sync k w reports =
      let run = process_next_work_item_lem sync (key k) w in
      elim (Outcome-cases (sync k w.state).0) [
        | inl (none, e) ↦
            rw (run, e)
              (inr (log-outcome (λ x. x) (log w.state) (reports w.state) e, inl (refl, refl)))
        | inl (some f, e) ↦
            rw (run, e)
              (inl (f, log-outcome (λ x. x) (log w.state) (reports w.state) e, refl, refl))
        | inr e ↦
            rw (run, e)
              (inr (log-outcome (λ x. x) (log w.state) (reports w.state) e, inr (refl, refl)))
      ]
