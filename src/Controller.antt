-- ===== src/Controller.antt =====
-- pkg/common/controller.go: the worker of the generic controller. The work queue is not part of the
-- program: what its Get returns is an argument, and the calls that the worker makes of it are listed
-- in the state, in order. `sync` is the handler's Sync; it may panic.
pub mod Group
pub mod Laws
pub mod Failures
use cert_broker.Base.{
  String, Bool, true, false, Option, none, some, List, [], ◌∷◌, ◌++◌, if◌then◌else◌,
}
use cert_broker.Base.Exec.{Exec, Outcome, returned, panicked, pure, continue, ◌>>=◌, ◌>>◌}
use cert_broker.Queue.{Item, key, foreign, Worker, make, deferring, within}

pub data QueueCall : Type 0 where
  done : Item → QueueCall
  forget : Item → QueueCall
  add_rate_limited : Item → QueueCall
  -- workerwg.Done()
  worker_done : QueueCall

module _ {S Error : Type 0} (sync : String → Exec S (Option Error)) where
  abbrev M : Type 0 → Type 0
  M = Exec (Worker S QueueCall)

  -- The function literal in processNextWorkItem, without its deferred call.
  unfoldable pub handle : Item → M (Option Error)
  handle foreign = do make (forget foreign); pure none
  handle (key k) = do
    e ← within (sync k)
    elim e [ some e ↦ pure (some e) | none ↦ (do make (forget (key k)); pure none) ]

  -- `none` is the answer of Get that the queue is shut down.
  unfoldable pub process_next_work_item : Option Item → M Bool
  unfolding handle
  process_next_work_item none = pure false
  process_next_work_item (some item) = do
    e ← deferring (handle item) (done item)
    elim e [ none ↦ pure true | some _ ↦ (do make (add_rate_limited item); pure true) ]

  -- The worker, over the items that Get returns before the queue is shut down.
  unfoldable pub run_worker : List Item → M (Unit {0})
  unfolding process_next_work_item
  run_worker [] = do more ← process_next_work_item none; make worker_done
  run_worker (item ∷ items) = do
    more ← process_next_work_item (some item)
    if more then run_worker items else make worker_done
