-- ===== src/Program/Elected/Invariant.antt =====
-- An invariant of the process with leader election.
use cert_broker.Base.{
  ℕ, ◌+◌, Bool, true, false, ◌≡◌, ◌⊎◌, inl, inr, refl, sym, ap, arith, List, [], ◌∷◌,
}
use cert_broker.Controller.Group.{Group}
use cert_broker.Program.Process.{waiting, exited, at_second, stop_all, AllReturned, AnyBusy}
use cert_broker.Program.Process.Invariant.{
  AllStarted, IsStarted-launched, AllStarted-Moved, AllStarted-stop_all, size, size-Moved,
  size-stop_all,
}
use cert_broker.Program.Elected.{
  Candidate, campaign, Tick, acquire, launch, lose, resign, work, wait_returns, first_signal,
  cancel, second_signal, crash, Ticks, none_yet, and_then,
}

-- A stop channel that is closed stays closed.
AllStarted-stopped : (c : Bool) (l : List Group) → AllStarted c l → AllStarted true (stop_all l)
unfolding stop_all
AllStarted-stopped false l all = AllStarted-stop_all l all
AllStarted-stopped true [] all = tt
AllStarted-stopped true (g ∷ l) ((worker, run, e), all) =
    let same : record g { stopped = true } ≡ g = ap (λ b. record g { stopped = b }) (sym e) in
    ((worker, rw same run, refl), AllStarted-stopped true l all)

pub record Fits (workers : List ℕ) (p : Candidate) : Type 0 where
  pub started : AllStarted p.ended p.groups
  pub total : size p.groups + size p.left ≡ size workers
  pub led : (p.leads ≡ true) ⊎ (p.left ≡ workers)
  pub over : p.main ≡ waiting → p.ended ≡ true
  pub code :
      (n : ℕ)
      → p.main ≡ exited n
      → ((n ≡ 0) × (p.ended ≡ true) × AllReturned p.groups)
        ⊎ (((n ≡ 1) × (p.signals ≡ at_second)) ⊎ ((n ≡ 2) × AnyBusy p.groups))

pub Fits-campaign : (workers : List ℕ) → Fits workers (campaign workers)
unfolding size
Fits-campaign workers = record {
  started = tt;
  total = omega arith;
  led = inr refl;
  over = λ h. absurd (cc h);
  code = λ n h. absurd (cc h);
}

Fits-Tick : {workers : List ℕ} {p p' : Candidate} → Tick p p' → Fits workers p → Fits workers p'
unfolding size
Fits-Tick (acquire p m) f = record {
  started = f.started;
  total = f.total;
  led = inl refl;
  over = f.over;
  code = f.code;
}
Fits-Tick (launch p worker left a l e) f = record {
  started = (IsStarted-launched worker p.ended, f.started);
  total = omega (arith, f.total, ap size e);
  led = inl l;
  over = f.over;
  code = λ n h. absurd (ground (arith, a, h));
}
Fits-Tick (lose p m l) f = record {
  started = AllStarted-stopped p.ended p.groups f.started;
  total = rw (size-stop_all p.groups) f.total;
  led = inl l;
  over = λ h. refl;
  code = λ n h. absurd (cc h);
}
Fits-Tick (resign p m c) f = record {
  started = AllStarted-stopped p.ended p.groups f.started;
  total = rw (size-stop_all p.groups) f.total;
  led = f.led;
  over = λ h. refl;
  code = λ n h. absurd (cc h);
}
Fits-Tick (work p groups a move) f = record {
  started = AllStarted-Moved p.ended move f.started;
  total = rw (size-Moved move) f.total;
  led = f.led;
  over = f.over;
  code = λ n h. absurd (ground (arith, a, h));
}
Fits-Tick (wait_returns p m all) f = record {
  started = f.started;
  total = f.total;
  led = f.led;
  over = λ h. absurd (cc h);
  code = λ n h. inl (cc h, f.over m, all);
}
Fits-Tick (first_signal p a e) f = record {
  started = f.started;
  total = f.total;
  led = f.led;
  over = f.over;
  code = λ n h. absurd (ground (arith, a, h));
}
Fits-Tick (cancel p a e) f = record {
  started = AllStarted-stopped p.ended p.groups f.started;
  total = rw (size-stop_all p.groups) f.total;
  led = f.led;
  over = λ h. refl;
  code = λ n h. absurd (ground (arith, a, h));
}
Fits-Tick (second_signal p a e) f = record {
  started = f.started;
  total = f.total;
  led = f.led;
  over = λ h. absurd (cc h);
  code = λ n h. inr (inl (cc h, e));
}
Fits-Tick (crash p a b) f = record {
  started = f.started;
  total = f.total;
  led = f.led;
  over = λ h. absurd (cc h);
  code = λ n h. inr (inr (cc h, b));
}

pub Fits-Ticks :
    {workers : List ℕ} {p p' : Candidate} → Ticks p p' → Fits workers p → Fits workers p'
Fits-Ticks (none_yet p) f = f
Fits-Ticks (and_then run tick) f = Fits-Tick tick (Fits-Ticks run f)
