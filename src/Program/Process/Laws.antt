-- ===== src/Program/Process/Laws.antt =====
-- The ends of the process.
use cert_broker.Base.{
  ℕ, suc, ◌<◌, Bool, true, ◌≡◌, ◌≢◌, ◌⊎◌, inl, inr, sym, ◌∙◌, ap, arith, List, [], ◌∷◌,
}
use cert_broker.Controller.Group.{Group, IsReturned}
use cert_broker.Controller.Group.Laws.{Steps-returned, skipped-Step}
use cert_broker.Program.Process.{
  exited, at_second, Process, begin, Moved, here, there, stop_all, AllReturned, AnyBusy, Tick,
  launch, run_returns, work, wait_returns, first_signal, cancel, second_signal, crash, Ticks,
  none_yet, and_then,
}
use cert_broker.Program.Process.Invariant.{AllStarted, size, Fits-begin, Fits-Ticks}

-- A controller that has returned, with no worker that works or that has not begun.
abbrev pub IsEnded : Group → Type 0
IsEnded g = IsReturned g × (g.fresh ≡ 0) × (g.running ≡ 0) × (g.busy ≡ 0) × (g.skipped ≡ 0)

abbrev pub AllEnded : List Group → Type 0
AllEnded [] = Unit {0}
AllEnded (g ∷ l) = IsEnded g × AllEnded l

pub AllEnded-returned : (c : Bool) (l : List Group) → AllStarted c l → AllReturned l → AllEnded l
AllEnded-returned c [] started returned = tt
AllEnded-returned c (g ∷ l) ((worker, run, e), started) (r, returned) = (
  let (_, a, b, c, k) = Steps-returned worker g run r in (r, a, b, c, k),
  AllEnded-returned c l started returned,
)

cancelled-returned :
    (c : Bool) (l : List Group) → AllStarted c l → AllReturned l → 0 < size l → c ≡ true
unfolding size
cancelled-returned c [] started returned h = absurd (omega (arith, h))
cancelled-returned c (g ∷ l) ((worker, run, e), started) (r, returned) h =
    sym e ∙ (Steps-returned worker g run r).0

-- If the process without leader election has ended, after any steps of its controllers, of which
-- there is at least one, of its main goroutine and of that of the signals, then either the context
-- was cancelled and the exit code is 0, all controllers were launched, each Start has returned and
-- no goroutine of a worker is before or in a call of runWorker or has ended without one; or the
-- context was cancelled and the exit code is 1 after a second signal; or the exit code is 2 and a
-- goroutine of some worker handles an item.
pub Ticks-exited :
    (worker : ℕ) (workers : List ℕ) (p : Process) (code : ℕ)
    → Ticks (begin (worker ∷ workers)) p
    → p.main ≡ exited code
    → ((p.cancelled ≡ true)
        × (((code ≡ 0) × (size p.groups ≡ size (worker ∷ workers)) × AllEnded p.groups)
            ⊎ ((code ≡ 1) × (p.signals ≡ at_second))))
      ⊎ ((code ≡ 2) × AnyBusy p.groups)
unfolding size
Ticks-exited worker workers p code run e =
    let f = Fits-Ticks run (Fits-begin (worker ∷ workers)) in
    elim (f.code code e) [
      | inr (inl (c, s)) ↦ inl (f.then_on s, inr (c, s))
      | inr (inr h) ↦ inr h
      | inl (c, none_left, returned) ↦
          let total : size p.groups ≡ suc (size workers) =
            omega (arith, f.total, ap size none_left) in
          inl (
            cancelled-returned p.cancelled p.groups f.started returned (omega (arith, total)),
            inl (c, total, AllEnded-returned p.cancelled p.groups f.started returned),
          )
    ]

-- A goroutine of some controller has ended without a call of runWorker.
abbrev pub AnySkipped : List Group → Type 0
AnySkipped [] = ⊥
AnySkipped (g ∷ l) = (0 < g.skipped) ⊎ AnySkipped l

pub AnySkipped-Moved : {l l' : List Group} → Moved l l' → AnySkipped l → AnySkipped l'
AnySkipped-Moved (here g g' l step same) (inl h) = inl (omega (arith, h, skipped-Step step))
AnySkipped-Moved (here g g' l step same) (inr h) = inr h
AnySkipped-Moved (there g move) (inl h) = inl h
AnySkipped-Moved (there g move) (inr h) = inr (AnySkipped-Moved move h)

pub AnySkipped-stop_all : (l : List Group) → AnySkipped l → AnySkipped (stop_all l)
unfolding stop_all
AnySkipped-stop_all [] h = elim h [ ]
AnySkipped-stop_all (g ∷ l) (inl h) = inl h
AnySkipped-stop_all (g ∷ l) (inr h) = inr (AnySkipped-stop_all l h)

AnySkipped-Tick : {p p' : Process} → Tick p p' → AnySkipped p.groups → AnySkipped p'.groups
AnySkipped-Tick (launch p worker left m e) h = inr h
AnySkipped-Tick (run_returns p m e) h = h
AnySkipped-Tick (work p groups a move) h = AnySkipped-Moved move h
AnySkipped-Tick (wait_returns p m all) h = h
AnySkipped-Tick (first_signal p a e) h = h
AnySkipped-Tick (cancel p a e) h = AnySkipped-stop_all p.groups h
AnySkipped-Tick (second_signal p a e) h = h
AnySkipped-Tick (crash p a b) h = h

AnySkipped-Ticks : {p p' : Process} → Ticks p p' → AnySkipped p.groups → AnySkipped p'.groups
AnySkipped-Ticks (none_yet p) h = h
AnySkipped-Ticks (and_then run tick) h = AnySkipped-Tick tick (AnySkipped-Ticks run h)

Ticks-trans : {a b c : Process} → Ticks a b → Ticks b c → Ticks a c
Ticks-trans run (none_yet p) = run
Ticks-trans run (and_then rest tick) = and_then (Ticks-trans run rest) tick

pub none_skipped : (l : List Group) → AllEnded l → AnySkipped l → ⊥
none_skipped [] ended h = elim h [ ]
none_skipped (g ∷ l) ((_, _, _, _, k), ended) (inl h) = omega (arith, h, k)
none_skipped (g ∷ l) (_, ended) (inr h) = none_skipped l ended h

-- Once a goroutine of a worker has ended without a call of runWorker, which the closed stop channel
-- makes it do if it has not looked at it before, the process, of at least one controller and
-- without leader election, does not end with exit code 0, whatever steps follow.
pub Ticks-hung :
    (worker : ℕ) (workers : List ℕ) (p p' : Process)
    → Ticks (begin (worker ∷ workers)) p
    → AnySkipped p.groups
    → Ticks p p'
    → p'.main ≢ exited 0
Ticks-hung worker workers p p' run skipped rest e =
    elim (Ticks-exited worker workers p' 0 (Ticks-trans run rest) e) [
      | inl (_, inl (_, _, ended)) ↦ none_skipped p'.groups ended (AnySkipped-Ticks rest skipped)
      | inl (_, inr (c, _)) ↦ absurd (omega (arith, c))
      | inr (c, _) ↦ absurd (omega (arith, c))
    ]
