-- ===== src/Program/Elected/Laws.antt =====
-- What a process with leader election runs, and how it ends.
use cert_broker.Base.{ℕ, ◌+◌, Bool, true, ◌≡◌, ◌≢◌, ◌⊎◌, inl, inr, refl, ap, arith, List, [], ◌∷◌}
use cert_broker.Controller.Group.{Group}
use cert_broker.Program.Process.{exited, at_second, AnyBusy}
use cert_broker.Program.Process.Invariant.{AllStarted, size}
use cert_broker.Program.Process.Laws.{
  AllEnded, AllEnded-returned, AnySkipped, AnySkipped-Moved, AnySkipped-stop_all, none_skipped,
}
use cert_broker.Program.Elected.{
  Candidate, campaign, Tick, acquire, launch, lose, resign, work, wait_returns, first_signal,
  cancel, second_signal, crash, Ticks, none_yet, and_then,
}
use cert_broker.Program.Elected.Invariant.{Fits-campaign, Fits-Ticks}

-- The stop channels of all controllers are closed, or none is.
abbrev pub AllStopped : Bool → List Group → Type 0
AllStopped ended [] = Unit {0}
AllStopped ended (g ∷ l) = (g.stopped ≡ ended) × AllStopped ended l

AllStarted-stopped : (c : Bool) (l : List Group) → AllStarted c l → AllStopped c l
AllStarted-stopped c [] started = tt
AllStarted-stopped c (g ∷ l) ((worker, run, e), started) = (e, AllStarted-stopped c l started)

size-zero : (l : List Group) → size l ≡ 0 → l ≡ []
unfolding size
size-zero [] e = refl
size-zero (g ∷ l) e = absurd (omega (arith, e))

-- After any steps of the process with leader election, the lease was acquired or no controller is
-- launched, each controller is launched at most once, and the stop channels of all controllers that
-- are launched are closed if the context of the callback is cancelled, and open otherwise.
pub Ticks-led :
    (workers : List ℕ) (p : Candidate)
    → Ticks (campaign workers) p
    → ((p.leads ≡ true) ⊎ (p.groups ≡ []))
      × (size p.groups + size p.left ≡ size workers)
      × AllStopped p.ended p.groups
Ticks-led workers p run =
    let f = Fits-Ticks run (Fits-campaign workers) in
    let led : (p.leads ≡ true) ⊎ (p.groups ≡ []) = elim f.led [
      | inl l ↦ inl l
      | inr e ↦ inr (size-zero p.groups (omega (arith, f.total, ap size e)))
    ] in
    (led, f.total, AllStarted-stopped p.ended p.groups f.started)

pub Ticks-resigned :
    (workers : List ℕ) (p : Candidate) (code : ℕ)
    → Ticks (campaign workers) p
    → p.main ≡ exited code
    → ((code ≡ 0) × (p.ended ≡ true) × AllEnded p.groups)
      ⊎ (((code ≡ 1) × (p.signals ≡ at_second)) ⊎ ((code ≡ 2) × AnyBusy p.groups))
Ticks-resigned workers p code run e =
    let f = Fits-Ticks run (Fits-campaign workers) in
    elim (f.code code e) [
      | inl (c, ended, returned) ↦
          inl (c, ended, AllEnded-returned p.ended p.groups f.started returned)
      | inr r ↦ inr r
    ]

AnySkipped-Tick : {p p' : Candidate} → Tick p p' → AnySkipped p.groups → AnySkipped p'.groups
AnySkipped-Tick (acquire p m) h = h
AnySkipped-Tick (launch p worker left a l e) h = inr h
AnySkipped-Tick (lose p m l) h = AnySkipped-stop_all p.groups h
AnySkipped-Tick (resign p m c) h = AnySkipped-stop_all p.groups h
AnySkipped-Tick (work p groups a move) h = AnySkipped-Moved move h
AnySkipped-Tick (wait_returns p m all) h = h
AnySkipped-Tick (first_signal p a e) h = h
AnySkipped-Tick (cancel p a e) h = AnySkipped-stop_all p.groups h
AnySkipped-Tick (second_signal p a e) h = h
AnySkipped-Tick (crash p a b) h = h

AnySkipped-Ticks : {p p' : Candidate} → Ticks p p' → AnySkipped p.groups → AnySkipped p'.groups
AnySkipped-Ticks (none_yet p) h = h
AnySkipped-Ticks (and_then run tick) h = AnySkipped-Tick tick (AnySkipped-Ticks run h)

Ticks-trans : {a b c : Candidate} → Ticks a b → Ticks b c → Ticks a c
Ticks-trans run (none_yet p) = run
Ticks-trans run (and_then rest tick) = and_then (Ticks-trans run rest) tick

-- Once a goroutine of a worker has ended without a call of runWorker, the process does not end with
-- exit code 0, whatever steps follow.
pub Ticks-stuck :
    (workers : List ℕ) (p p' : Candidate)
    → Ticks (campaign workers) p
    → AnySkipped p.groups
    → Ticks p p'
    → p'.main ≢ exited 0
Ticks-stuck workers p p' run skipped rest e =
    elim (Ticks-resigned workers p' 0 (Ticks-trans run rest) e) [
      | inl (_, _, ended) ↦ none_skipped p'.groups ended (AnySkipped-Ticks rest skipped)
      | inr (inl (c, _)) ↦ absurd (omega (arith, c))
      | inr (inr (c, _)) ↦ absurd (omega (arith, c))
    ]
