-- ===== src/Controller/Group.antt =====
-- Start of pkg/common/controller.go, which pkg/cleaner/controller.go repeats: the wait for the caches,
-- and a group of goroutines that interleave in any order. Each goroutine runs
-- `wait.Until(c.runWorker, ..., stopCh)`, which looks at the stop channel before every call of
-- runWorker and returns if it is closed. runWorker loops over processNextWorkItem, one step for Get and
-- one for the deferred Done, until Get says that the queue is shut down; then it calls workerwg.Done().
-- The queue is counted: k8s.io/client-go/util/workqueue keeps an item that is added while it is handled
-- for its Done, drops additions after ShutDown, and lets Get return items until the queue is empty. A
-- panic of a handler ends the process: the step `crash` of Program/Process.
mod Invariant
pub mod Laws
use cert_broker.Base.{ℕ, zero, suc, ◌-◌, ◌≤◌, ◌<◌, Bool, true, false, ◌≡◌, ◌⊎◌}

-- Where Start is: at WaitForCacheSync with the number of workers, in the loop with some workers left
-- to launch, at the receive from stopCh, at workerwg.Wait(), past it, or past the return of an error.
pub data Phase : Type 0 where
  syncing launching : ℕ → Phase
  waiting joining finished failed : Phase

pub record Group : Type 0 where
  pub phase : Phase
  -- stopCh is closed
  pub stopped : Bool
  -- the queue is shut down
  pub shut : Bool
  -- items that wait in the queue
  pub queue : ℕ
  -- items that were added again while they are handled, which Done puts back into the queue
  pub dirty : ℕ
  -- the counter of workerwg
  pub count : ℕ
  -- goroutines before their first look at stopCh
  pub fresh : ℕ
  -- goroutines in runWorker, at Get
  pub running : ℕ
  -- goroutines in runWorker that handle an item, between Get and Done
  pub busy : ℕ
  -- goroutines between two calls of runWorker
  pub idle : ℕ
  -- goroutines that ended without a call of runWorker
  pub skipped : ℕ
  -- goroutines that ended after one
  pub exited : ℕ

abbrev pub initial : ℕ → Group
initial worker = record {
  phase = syncing worker;
  stopped = false;
  shut = false;
  queue = 0;
  dirty = 0;
  count = 0;
  fresh = 0;
  running = 0;
  busy = 0;
  idle = 0;
  skipped = 0;
  exited = 0;
}

pub data Step : Group → Group → Type 0 where
  -- WaitForCacheSync returns true
  synced :
      (g : Group) (worker : ℕ)
      → g.phase ≡ syncing worker
      → Step g (record g { phase = launching worker })
  -- WaitForCacheSync returns false, which it does only if the stop channel is closed
  not_synced :
      (g : Group) (worker : ℕ)
      → g.phase ≡ syncing worker
      → g.stopped ≡ true
      → Step g (record g { phase = failed })
  -- workerwg.Add(1) and the go statement
  launch :
      (g : Group) (left : ℕ)
      → g.phase ≡ launching (suc left)
      → Step g (record g { phase = launching left; count = suc g.count; fresh = suc g.fresh })
  launched : (g : Group) → g.phase ≡ launching 0 → Step g (record g { phase = waiting })
  -- the stop channel is closed from outside
  stop : (g : Group) → g.stopped ≡ false → Step g (record g { stopped = true })
  -- wait.Until calls runWorker
  enter :
      (g : Group) (n : ℕ)
      → g.fresh ≡ suc n
      → g.stopped ≡ false
      → Step g (record g { fresh = n; running = suc g.running })
  -- wait.Until returns at once
  skip :
      (g : Group) (n : ℕ)
      → g.fresh ≡ suc n
      → g.stopped ≡ true
      → Step g (record g { fresh = n; skipped = suc g.skipped })
  -- an item that is neither in the queue nor handled is added
  add : (g : Group) → g.shut ≡ false → Step g (record g { queue = suc g.queue })
  -- an item that is handled is added
  add_again :
      (g : Group) → g.shut ≡ false → g.dirty < g.busy → Step g (record g { dirty = suc g.dirty })
  -- processNextWorkItem: Get returns an item
  take :
      (g : Group) (n m : ℕ)
      → g.running ≡ suc n
      → g.queue ≡ suc m
      → Step g (record g { running = n; queue = m; busy = suc g.busy })
  -- the handler returns, Done, and processNextWorkItem returns true
  handled :
      (g : Group) (n : ℕ)
      → g.busy ≡ suc n
      → g.dirty ≤ n
      → Step g (record g { busy = n; running = suc g.running })
  -- the same where the item was added again
  handled_again :
      (g : Group) (n m : ℕ)
      → g.busy ≡ suc n
      → g.dirty ≡ suc m
      → Step g (record g { busy = n; dirty = m; queue = suc g.queue; running = suc g.running })
  -- Get says that the queue is shut down, processNextWorkItem returns false, then workerwg.Done()
  finish :
      (g : Group) (n : ℕ)
      → g.running ≡ suc n
      → g.queue ≡ 0
      → g.shut ≡ true
      → Step g (record g { running = n; count = g.count - 1; idle = suc g.idle })
  again :
      (g : Group) (n : ℕ)
      → g.idle ≡ suc n
      → g.stopped ≡ false
      → Step g (record g { idle = n; running = suc g.running })
  leave :
      (g : Group) (n : ℕ)
      → g.idle ≡ suc n
      → g.stopped ≡ true
      → Step g (record g { idle = n; exited = suc g.exited })
  -- the receive from stopCh, and the shutdown of the queue
  shut_down :
      (g : Group)
      → g.phase ≡ waiting
      → g.stopped ≡ true
      → Step g (record g { phase = joining; shut = true })
  -- workerwg.Wait() returns
  join : (g : Group) → g.phase ≡ joining → g.count ≡ 0 → Step g (record g { phase = finished })

pub data Steps : Group → Group → Type 0 where
  here : (g : Group) → Steps g g
  then : {a b c : Group} → Steps a b → Step b c → Steps a c

-- Start has returned.
abbrev pub IsReturned : Group → Type 0
IsReturned g = (g.phase ≡ finished) ⊎ (g.phase ≡ failed)
