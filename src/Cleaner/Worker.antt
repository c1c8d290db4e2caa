-- ===== src/Cleaner/Worker.antt =====
-- pkg/cleaner/controller.go: processNextWorkItem and runWorker. The delaying queue and the rate
-- limiter are not part of the program: what Get returns is an argument, the calls that the worker
-- makes of them are listed in the state, in order, and `backoff` is what the limiter's When returns
-- for an item after these calls, in nanoseconds.
pub mod Laws
pub mod Failures
use cert_broker.Base.{
  String, ℕ, Bool, true, false, Option, none, some, List, [], ◌∷◌, ◌++◌, if◌then◌else◌,
}
use cert_broker.Base.Exec.{Exec, returned, pure, ◌>>=◌, ◌>>◌}
use cert_broker.Queue.{Item, key, foreign, Worker, make, deferring, within}

pub data QueueCall : Type 0 where
  done : Item → QueueCall
  forget : Item → QueueCall
  when : Item → QueueCall
  add_after : Item → ℕ → QueueCall
  -- workerwg.Done()
  worker_done : QueueCall

-- One hour.
abbrev pub requeue_period : ℕ
requeue_period = 3_600_000_000_000

module _ {S Error : Type 0} (sync_handler : String → Exec S (Bool × Option Error))
    (backoff : List QueueCall → Item → ℕ) where
  abbrev M : Type 0 → Type 0
  M = Exec (Worker S QueueCall)

  finish : Item → Bool × Option Error → M (Option Error)
  finish item (requeue, some e) = pure (some e)
  finish item (true, none) = do make (add_after item requeue_period); make (forget item); pure none
  finish item (false, none) = do make (forget item); pure none

  -- The function literal in processNextWorkItem, without its deferred call.
  unfoldable pub handle : Item → M (Option Error)
  unfolding finish
  handle foreign = pure none
  handle (key k) = do result ← within (sync_handler k); finish (key k) result

  abbrev pub when_limited : Item → M ℕ
  when_limited item w =
      (returned (backoff w.calls item), record w { calls = w.calls ++ when item ∷ [] })

  -- `none` is the answer of Get that the queue is shut down.
  unfoldable pub process_next_work_item : Option Item → M Bool
  unfolding handle
  process_next_work_item none = pure false
  process_next_work_item (some item) = do
    e ← deferring (handle item) (done item)
    elim e [
      | none ↦ pure true
      | some _ ↦ (do time ← when_limited item; make (add_after item time); pure true)
    ]

  -- The worker, over the items that Get returns before the queue is shut down.
  unfoldable pub run_worker : List Item → M (Unit {0})
  unfolding process_next_work_item
  run_worker [] = do more ← process_next_work_item none; make worker_done
  run_worker (item ∷ items) = do
    more ← process_next_work_item (some item)
    if more then run_worker items else make worker_done
