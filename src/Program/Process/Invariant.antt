-- ===== src/Program/Process/Invariant.antt =====
-- An invariant of the process.
use cert_broker.Base.{
  ℕ, suc, ◌+◌, Bool, true, false, ◌≡◌, ◌≢◌, ◌⊎◌, inl, inr, refl, ◌∙◌, ap, arith, List, [], ◌∷◌,
}
use cert_broker.Controller.Group.{Group, initial, stop, Steps, here as no_step, then}
use cert_broker.Program.Process.{
  waiting, exited, at_second, Process, begin, launched, Moved, here, there, stop_all, AllReturned,
  AnyBusy, Tick, launch, run_returns, work, wait_returns, first_signal, cancel, second_signal,
  crash, Ticks, none_yet, and_then,
}

-- A controller that was launched and looks at the context.
abbrev pub IsStarted : Bool → Group → Type 0
IsStarted cancelled g = (worker : ℕ) × Steps (initial worker) g × (g.stopped ≡ cancelled)

abbrev pub AllStarted : Bool → List Group → Type 0
AllStarted cancelled [] = Unit {0}
AllStarted cancelled (g ∷ l) = IsStarted cancelled g × AllStarted cancelled l

unfoldable pub size : {A : Type 0} → List A → ℕ
size [] = 0
size (x ∷ l) = suc (size l)

pub IsStarted-launched :
    (worker : ℕ) (cancelled : Bool) → IsStarted cancelled (launched worker cancelled)
IsStarted-launched worker true =
    (worker, then (no_step (initial worker)) (stop (initial worker) refl), refl)
IsStarted-launched worker false = (worker, no_step (initial worker), refl)

pub AllStarted-Moved :
    (c : Bool) {l l' : List Group} → Moved l l' → AllStarted c l → AllStarted c l'
AllStarted-Moved c (here g g' l step same) ((worker, run, e), all) =
    ((worker, then run step, same ∙ e), all)
AllStarted-Moved c (there g move) (started, all) = (started, AllStarted-Moved c move all)

pub AllStarted-stop_all : (l : List Group) → AllStarted false l → AllStarted true (stop_all l)
unfolding stop_all
AllStarted-stop_all [] all = tt
AllStarted-stop_all (g ∷ l) ((worker, run, e), all) =
    ((worker, then run (stop g e), refl), AllStarted-stop_all l all)

pub size-Moved : {l l' : List Group} → Moved l l' → size l' ≡ size l
unfolding size
size-Moved (here g g' l step same) = refl
size-Moved (there g move) = ap suc (size-Moved move)

pub size-stop_all : (l : List Group) → size (stop_all l) ≡ size l
unfolding size stop_all
size-stop_all [] = refl
size-stop_all (g ∷ l) = ap suc (size-stop_all l)

pub record Fits (workers : List ℕ) (p : Process) : Type 0 where
  pub started : AllStarted p.cancelled p.groups
  pub total : size p.groups + size p.left ≡ size workers
  pub not_yet : p.signals ≢ at_second → p.cancelled ≡ false
  pub then_on : p.signals ≡ at_second → p.cancelled ≡ true
  pub launched_all : p.main ≡ waiting → p.left ≡ []
  pub code :
      (n : ℕ)
      → p.main ≡ exited n
      → ((n ≡ 0) × (p.left ≡ []) × AllReturned p.groups)
        ⊎ (((n ≡ 1) × (p.signals ≡ at_second)) ⊎ ((n ≡ 2) × AnyBusy p.groups))

pub Fits-begin : (workers : List ℕ) → Fits workers (begin workers)
unfolding size
Fits-begin workers = record {
  started = tt;
  total = omega arith;
  not_yet = λ h. refl;
  then_on = λ h. absurd (cc h);
  launched_all = λ h. absurd (cc h);
  code = λ n h. absurd (cc h);
}

Fits-Tick : {workers : List ℕ} {p p' : Process} → Tick p p' → Fits workers p → Fits workers p'
unfolding size
Fits-Tick (launch p worker left m e) f = record {
  started = (IsStarted-launched worker p.cancelled, f.started);
  total = omega (arith, f.total, ap size e);
  not_yet = f.not_yet;
  then_on = f.then_on;
  launched_all = λ h. absurd (cc (h, m));
  code = λ n h. absurd (cc (h, m));
}
Fits-Tick (run_returns p m e) f = record {
  started = f.started;
  total = f.total;
  not_yet = f.not_yet;
  then_on = f.then_on;
  launched_all = λ h. e;
  code = λ n h. absurd (cc h);
}
Fits-Tick (work p groups a move) f = record {
  started = AllStarted-Moved p.cancelled move f.started;
  total = rw (size-Moved move) f.total;
  not_yet = f.not_yet;
  then_on = f.then_on;
  launched_all = f.launched_all;
  code = λ n h. absurd (ground (arith, a, h));
}
Fits-Tick (wait_returns p m all) f = record {
  started = f.started;
  total = f.total;
  not_yet = f.not_yet;
  then_on = f.then_on;
  launched_all = λ h. absurd (cc h);
  code = λ n h. inl (cc h, f.launched_all m, all);
}
Fits-Tick (first_signal p a e) f = record {
  started = f.started;
  total = f.total;
  not_yet = λ h. f.not_yet (λ r. cc (e, r));
  then_on = λ h. absurd (cc h);
  launched_all = f.launched_all;
  code = λ n h. absurd (ground (arith, a, h));
}
Fits-Tick (cancel p a e) f = record {
  started = AllStarted-stop_all p.groups (rw (f.not_yet (λ r. cc (e, r))) at f.started);
  total = rw (size-stop_all p.groups) f.total;
  not_yet = λ h. absurd (h refl);
  then_on = λ h. refl;
  launched_all = f.launched_all;
  code = λ n h. absurd (ground (arith, a, h));
}
Fits-Tick (second_signal p a e) f = record {
  started = f.started;
  total = f.total;
  not_yet = f.not_yet;
  then_on = f.then_on;
  launched_all = λ h. absurd (cc h);
  code = λ n h. inr (inl (cc h, e));
}
Fits-Tick (crash p a b) f = record {
  started = f.started;
  total = f.total;
  not_yet = f.not_yet;
  then_on = f.then_on;
  launched_all = λ h. absurd (cc h);
  code = λ n h. inr (inr (cc h, b));
}

pub Fits-Ticks : {workers : List ℕ} {p p' : Process} → Ticks p p' → Fits workers p → Fits workers p'
Fits-Ticks (none_yet p) f = f
Fits-Ticks (and_then run tick) f = Fits-Tick tick (Fits-Ticks run f)
