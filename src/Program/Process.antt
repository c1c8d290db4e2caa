-- ===== src/Program/Process.antt =====
-- The process without leader election, after the controllers are made: the closure `run` and the wait
-- for the controllers in cmd/controller-manager.go, and the goroutine of SetupSignalHandler in main.go.
-- Each controller is a run of Start, Controller/Group.antt; they interleave in any order. A call of
-- controllerWg.Wait returns when every Start that was launched has returned.
pub mod Invariant
pub mod Laws
use cert_broker.Base.{ℕ, ◌<◌, Bool, true, false, ◌≡◌, ◌⊎◌, List, [], ◌∷◌}
use cert_broker.Controller.Group.{Group, initial, Step, IsReturned}

-- Where the main goroutine is: in the closure `run`, at controllerWg.Wait, or past the exit with a code.
pub data Main : Type 0 where
  running waiting : Main
  exited : ℕ → Main

abbrev pub alive : Main → Bool
alive (exited code) = false
alive _ = true

-- Where the goroutine of the signals is: at the first receive, at the call of cancel, at the second
-- receive.
pub data Signals : Type 0 where
  at_first cancelling at_second : Signals

pub record Process : Type 0 where
  pub main : Main
  pub signals : Signals
  -- the context is cancelled, which closes the stop channels
  pub cancelled : Bool
  -- the numbers of workers of the controllers that are not launched yet
  pub left : List ℕ
  -- the controllers that are launched, the last one first
  pub groups : List Group

abbrev pub begin : List ℕ → Process
begin workers = record {
  main = running;
  signals = at_first;
  cancelled = false;
  left = workers;
  groups = [];
}

-- A controller at its start.
abbrev pub launched : ℕ → Bool → Group
launched worker cancelled = record (initial worker) { stopped = cancelled }

-- One of the controllers makes a step of its own, which closes no channel.
pub data Moved : List Group → List Group → Type 0 where
  here :
      (g g' : Group) (l : List Group) → Step g g' → g'.stopped ≡ g.stopped → Moved (g ∷ l) (g' ∷ l)
  there : (g : Group) {l l' : List Group} → Moved l l' → Moved (g ∷ l) (g ∷ l')

-- The stop channels of all controllers are closed.
unfoldable pub stop_all : List Group → List Group
stop_all [] = []
stop_all (g ∷ l) = record g { stopped = true } ∷ stop_all l

abbrev pub AllReturned : List Group → Type 0
AllReturned [] = Unit {0}
AllReturned (g ∷ l) = IsReturned g × AllReturned l

-- A goroutine of some controller handles an item.
abbrev pub AnyBusy : List Group → Type 0
AnyBusy [] = ⊥
AnyBusy (g ∷ l) = (0 < g.busy) ⊎ AnyBusy l

pub data Tick : Process → Process → Type 0 where
  -- controllerWg.Add(1) and the go statement
  launch :
      (p : Process) (worker : ℕ) (left : List ℕ)
      → p.main ≡ running
      → p.left ≡ worker ∷ left
      → Tick p (record p { left = left; groups = launched worker p.cancelled ∷ p.groups })
  run_returns :
      (p : Process) → p.main ≡ running → p.left ≡ [] → Tick p (record p { main = waiting })
  work :
      (p : Process) (groups : List Group)
      → alive p.main ≡ true
      → Moved p.groups groups
      → Tick p (record p { groups = groups })
  -- controllerWg.Wait() returns, then RunE, with no error, and main
  wait_returns :
      (p : Process)
      → p.main ≡ waiting
      → AllReturned p.groups
      → Tick p (record p { main = exited 0 })
  -- SIGINT or SIGTERM
  first_signal :
      (p : Process)
      → alive p.main ≡ true
      → p.signals ≡ at_first
      → Tick p (record p { signals = cancelling })
  cancel :
      (p : Process)
      → alive p.main ≡ true
      → p.signals ≡ cancelling
      → Tick p (record p { signals = at_second; cancelled = true; groups = stop_all p.groups })
  second_signal :
      (p : Process)
      → alive p.main ≡ true
      → p.signals ≡ at_second
      → Tick p (record p { main = exited 1 })
  -- a handler panics: runtime.HandleCrash of wait.Until logs the panic and panics again, which ends
  -- the process with code 2
  crash :
      (p : Process) → alive p.main ≡ true → AnyBusy p.groups → Tick p (record p { main = exited 2 })

pub data Ticks : Process → Process → Type 0 where
  none_yet : (p : Process) → Ticks p p
  and_then : {a b c : Process} → Ticks a b → Tick b c → Ticks a c
