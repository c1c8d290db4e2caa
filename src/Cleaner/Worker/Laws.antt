-- ===== src/Cleaner/Worker/Laws.antt =====
-- pkg/cleaner/controller.go: what the worker does with each key.
use cert_broker.Base.{
  ℕ, String, Bool, true, false, ◌≡◌, arith, Option, none, some, List, [], ◌∷◌, ◌++◌, append_assoc,
  inl, inr,
}
use cert_broker.Base.Exec.{Exec, Outcome, Outcome-cases, returned, panicked}
use cert_broker.Queue.{Item, key, Worker}
use cert_broker.Cleaner.Worker.{
  QueueCall, done, forget, when, add_after, requeue_period, process_next_work_item,
}

module _ {S Error : Type 0} (sync_handler : String → Exec S (Bool × Option Error))
    (backoff : List QueueCall → Item → ℕ) where
  -- The calls for a key, by what syncHandler gave for it, after the calls made before.
  abbrev pub calls_for : List QueueCall → Item → Outcome (Bool × Option Error) → List QueueCall
  calls_for before item (returned (true, none)) =
      add_after item requeue_period ∷ forget item ∷ done item ∷ []
  calls_for before item (returned (false, none)) = forget item ∷ done item ∷ []
  calls_for before item (returned (again, some e)) =
      done item ∷ when item ∷ add_after item (backoff (before ++ done item ∷ []) item) ∷ []
  calls_for before item panicked = done item ∷ []

  abbrev pub goes_on : Outcome (Bool × Option Error) → Outcome Bool
  goes_on (returned e) = returned true
  goes_on panicked = panicked

  -- A key is always marked as done. Without an error it is forgotten by the rate limiter, and
  -- before that added again after an hour if syncHandler asks for it; with an error it is added
  -- again after the time of the rate limiter, whatever syncHandler asks for. A panic goes through.
  pub process_next_work_item_delays :
      (k : String) (w : Worker S QueueCall)
      → let (r, s) = sync_handler k w.state in
        process_next_work_item sync_handler backoff (some (key k)) w
        ≡ (goes_on r, record { state = s; calls = w.calls ++ calls_for w.calls (key k) r })
  unfolding process_next_work_item
  process_next_work_item_delays k w =
      let item = key k in
      elim (Outcome-cases (sync_handler k w.state).0) [
        | inl ((true, none), e) ↦ ground (
          arith,
          e,
          append_assoc w.calls (add_after item requeue_period ∷ []) (forget item ∷ []),
          append_assoc w.calls (add_after item requeue_period ∷ forget item ∷ []) (done item ∷ []),
        )
        | inl ((false, none), e) ↦
            ground (arith, e, append_assoc w.calls (forget item ∷ []) (done item ∷ []))
        | inl ((again, some x), e) ↦
            let t = backoff (w.calls ++ done item ∷ []) item in
            ground (
              arith,
              e,
              append_assoc w.calls (done item ∷ []) (when item ∷ []),
              append_assoc w.calls (done item ∷ when item ∷ []) (add_after item t ∷ []),
            )
        | inr e ↦ ground (arith, e)
      ]
