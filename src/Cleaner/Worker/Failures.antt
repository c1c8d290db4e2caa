-- ===== src/Cleaner/Worker/Failures.antt =====
-- pkg/cleaner/controller.go: the failures of a check, and what the worker does with its key.
use cert_broker.Base.{
  ℕ, String, Bool, true, false, ◌≡◌, refl, Option, none, some, List, [], ◌∷◌, ◌++◌, ◌⊎◌, inl, inr,
}
use cert_broker.Base.Exec.{Exec, Outcome, Outcome-cases, returned, panicked}
use cert_broker.Kube.Api.{Api}
use cert_broker.Kube.Logged.{log, log-outcome, ReportsIn}
use cert_broker.Broker.{Broker}
use cert_broker.Queue.{Item, key, Worker}
use cert_broker.Cleaner.Worker.{
  QueueCall, done, forget, when, add_after, requeue_period, process_next_work_item,
}
use cert_broker.Cleaner.Worker.Laws.{process_next_work_item_delays}

module _ (api : Api) (backoff : List QueueCall → Item → ℕ) where
  abbrev Logged : Type 0
  Logged = Broker (api.World × List api.Error)

  -- Of one key: a failure was noted and the key is added again after the time of the rate limiter, or
  -- none was noted.
  abbrev pub IsRechecked :
      String → Worker Logged QueueCall → Outcome Bool × Worker Logged QueueCall → Type 0
  IsRechecked k w (r, w') =
      let item = key k in
      let delay = backoff (w.calls ++ done item ∷ []) item in
      ((e : api.Error) × (log w'.state ≡ e ∷ log w.state)
        × (r ≡ returned true)
        × (w'.calls ≡ w.calls ++ done item ∷ when item ∷ add_after item delay ∷ []))
      ⊎ ((log w'.state ≡ log w.state)
          × (((r ≡ returned true)
                × ((w'.calls
                      ≡ w.calls ++ add_after item requeue_period ∷ forget item ∷ done item ∷ [])
                    ⊎ (w'.calls ≡ w.calls ++ forget item ∷ done item ∷ [])))
              ⊎ ((r ≡ panicked) × (w'.calls ≡ w.calls ++ done item ∷ []))))

  pub ReportsIn-IsRechecked :
      (sync_handler : String → Exec Logged (Bool × Option api.Error)) (k : String)
      (w : Worker Logged QueueCall)
      → ReportsIn api (λ r. r.1) (sync_handler k)
      → IsRechecked k w (process_next_work_item sync_handler backoff (some (key k)) w)
  ReportsIn-IsRechecked sync_handler k w reports =
      let run = process_next_work_item_delays sync_handler backoff k w in
      elim (Outcome-cases (sync_handler k w.state).0) [
        | inl ((true, none), e) ↦
            rw (run, e)
              (inr (log-outcome (λ x. x.1) (log w.state) (reports w.state) e, inl (refl, inl refl)))
        | inl ((false, none), e) ↦
            rw (run, e)
              (inr (log-outcome (λ x. x.1) (log w.state) (reports w.state) e, inl (refl, inr refl)))
        | inl ((again, some f), e) ↦
            rw (run, e)
              (inl (f, log-outcome (λ x. x.1) (log w.state) (reports w.state) e, refl, refl))
        | inr e ↦
            rw (run, e)
              (inr (log-outcome (λ x. x.1) (log w.state) (reports w.state) e, inr (refl, refl)))
      ]
