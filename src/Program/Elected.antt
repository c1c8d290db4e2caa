-- ===== src/Program/Elected.antt =====
-- The process with leader election, after the elector is made: the run of the elector and the wait for
-- the controllers in cmd/controller-manager.go, the closure `run` as its callback, and the goroutine of
-- SetupSignalHandler in main.go. The elector is k8s.io/client-go/tools/leaderelection, of which is
-- used what it documents: the callback OnStartedLeading is invoked asynchronously when the lease is
-- acquired, with a context that is done when the elector's run returns, and the run returns when the
-- context that it was given is done or the lease is lost.
pub mod Invariant
pub mod Laws
use cert_broker.Base.{ℕ, Bool, true, false, ◌≡◌, List, [], ◌∷◌}
use cert_broker.Controller.Group.{Group}
use cert_broker.Program.Process.{
  Main, running, waiting, exited, alive, Signals, at_first, cancelling, at_second, launched, Moved,
  stop_all, AllReturned, AnyBusy,
}

-- `main` is `running` in the run of the elector.
pub record Candidate : Type 0 where
  pub main : Main
  pub signals : Signals
  -- the context of the signals is cancelled
  pub cancelled : Bool
  -- the lease was acquired and the callback is invoked
  pub leads : Bool
  -- the context of the callback is cancelled, which closes the stop channels
  pub ended : Bool
  -- the numbers of workers of the controllers that are not launched yet
  pub left : List ℕ
  -- the controllers that are launched, the last one first
  pub groups : List Group

abbrev pub campaign : List ℕ → Candidate
campaign workers = record {
  main = running;
  signals = at_first;
  cancelled = false;
  leads = false;
  ended = false;
  left = workers;
  groups = [];
}

pub data Tick : Candidate → Candidate → Type 0 where
  acquire : (p : Candidate) → p.main ≡ running → Tick p (record p { leads = true })
  -- in the callback, controllerWg.Add(1) and the go statement
  launch :
      (p : Candidate) (worker : ℕ) (left : List ℕ)
      → alive p.main ≡ true
      → p.leads ≡ true
      → p.left ≡ worker ∷ left
      → Tick p (record p { left = left; groups = launched worker p.ended ∷ p.groups })
  -- the run of the elector returns because the lease is lost, and runWithLeaderElection with no error
  lose :
      (p : Candidate)
      → p.main ≡ running
      → p.leads ≡ true
      → Tick p (record p { main = waiting; ended = true; groups = stop_all p.groups })
  -- it returns because the context is done, with or without the lease
  resign :
      (p : Candidate)
      → p.main ≡ running
      → p.cancelled ≡ true
      → Tick p (record p { main = waiting; ended = true; groups = stop_all p.groups })
  work :
      (p : Candidate) (groups : List Group)
      → alive p.main ≡ true
      → Moved p.groups groups
      → Tick p (record p { groups = groups })
  -- controllerWg.Wait() returns, then RunE, with no error, and main
  wait_returns :
      (p : Candidate)
      → p.main ≡ waiting
      → AllReturned p.groups
      → Tick p (record p { main = exited 0 })
  -- SIGINT or SIGTERM
  first_signal :
      (p : Candidate)
      → alive p.main ≡ true
      → p.signals ≡ at_first
      → Tick p (record p { signals = cancelling })
  cancel :
      (p : Candidate)
      → alive p.main ≡ true
      → p.signals ≡ cancelling
      → Tick p (record p {
        signals = at_second;
        cancelled = true;
        ended = true;
        groups = stop_all p.groups;
      })
  second_signal :
      (p : Candidate)
      → alive p.main ≡ true
      → p.signals ≡ at_second
      → Tick p (record p { main = exited 1 })
  -- a handler panics: runtime.HandleCrash of wait.Until logs the panic and panics again, which ends
  -- the process with code 2
  crash :
      (p : Candidate)
      → alive p.main ≡ true
      → AnyBusy p.groups
      → Tick p (record p { main = exited 2 })

pub data Ticks : Candidate → Candidate → Type 0 where
  none_yet : (p : Candidate) → Ticks p p
  and_then : {a b c : Candidate} → Ticks a b → Tick b c → Ticks a c
