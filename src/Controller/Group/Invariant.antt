-- ===== src/Controller/Group/Invariant.antt =====
-- pkg/common/controller.go: an invariant of Start and its goroutines.
use cert_broker.Base.{ℕ, ◌+◌, true, ◌≡◌, ◌⊎◌, inl, inr, refl, arith}
use cert_broker.Controller.Group.{
  syncing, joining, finished, failed, Group, initial, Step, synced, not_synced, launch, launched,
  stop, enter, skip, add, add_again, take, handled, handled_again, finish, again, leave, shut_down,
  join, Steps, here, then,
}

pub record Fits (g : Group) : Type 0 where
  -- every goroutine that has not called Done is counted
  pub total : g.count ≡ g.fresh + g.running + g.busy + g.skipped
  pub shut_stopped : g.shut ≡ true → g.stopped ≡ true
  pub idle_shut : (g.idle ≡ 0) ⊎ (g.shut ≡ true)
  pub joins : g.phase ≡ joining → g.shut ≡ true
  pub shut_joins : g.shut ≡ true → (g.phase ≡ joining) ⊎ (g.phase ≡ finished)
  pub ends : g.phase ≡ finished → (g.shut ≡ true) × (g.count ≡ 0)
  -- before the first launch there is no goroutine
  pub none_before : (worker : ℕ) → g.phase ≡ syncing worker → g.count ≡ 0
  pub fails : g.phase ≡ failed → (g.stopped ≡ true) × (g.count ≡ 0)

pub Fits-initial : (worker : ℕ) → Fits (initial worker)
Fits-initial worker = record {
  total = refl;
  shut_stopped = λ e. absurd (cc e);
  idle_shut = inl refl;
  joins = λ e. absurd (cc e);
  shut_joins = λ e. absurd (cc e);
  ends = λ e. absurd (cc e);
  none_before = λ w e. refl;
  fails = λ e. absurd (cc e);
}

pub Fits-Step : {g g' : Group} → Step g g' → Fits g → Fits g'
Fits-Step (synced g w e) f = record {
  total = f.total;
  shut_stopped = f.shut_stopped;
  idle_shut = f.idle_shut;
  joins = λ h. absurd (cc h);
  shut_joins = λ h. absurd (ground (arith, e, h, f.shut_joins h));
  ends = λ h. absurd (cc h);
  none_before = λ v h. absurd (cc h);
  fails = λ h. absurd (cc h);
}
Fits-Step (not_synced g w e s) f = record {
  total = f.total;
  shut_stopped = f.shut_stopped;
  idle_shut = f.idle_shut;
  joins = λ h. absurd (cc h);
  shut_joins = λ h. absurd (ground (arith, e, h, f.shut_joins h));
  ends = λ h. absurd (cc h);
  none_before = λ v h. absurd (cc h);
  fails = λ h. (s, f.none_before w e);
}
Fits-Step (launch g left e) f = record {
  total = omega (arith, f.total);
  shut_stopped = f.shut_stopped;
  idle_shut = f.idle_shut;
  joins = λ h. absurd (cc h);
  shut_joins = λ h. absurd (ground (arith, e, h, f.shut_joins h));
  ends = λ h. absurd (cc h);
  none_before = λ w h. absurd (cc h);
  fails = λ h. absurd (cc h);
}
Fits-Step (launched g e) f = record {
  total = f.total;
  shut_stopped = f.shut_stopped;
  idle_shut = f.idle_shut;
  joins = λ h. absurd (cc h);
  shut_joins = λ h. absurd (ground (arith, e, h, f.shut_joins h));
  ends = λ h. absurd (cc h);
  none_before = λ w h. absurd (cc h);
  fails = λ h. absurd (cc h);
}
Fits-Step (stop g e) f = record {
  total = f.total;
  shut_stopped = λ h. refl;
  idle_shut = f.idle_shut;
  joins = f.joins;
  shut_joins = f.shut_joins;
  ends = f.ends;
  none_before = f.none_before;
  fails = λ h. (refl, (f.fails h).1);
}
Fits-Step (enter g n e s) f = record {
  total = omega (arith, f.total, e);
  shut_stopped = f.shut_stopped;
  idle_shut = f.idle_shut;
  joins = f.joins;
  shut_joins = f.shut_joins;
  ends = f.ends;
  none_before = f.none_before;
  fails = f.fails;
}
Fits-Step (skip g n e s) f = record {
  total = omega (arith, f.total, e);
  shut_stopped = f.shut_stopped;
  idle_shut = f.idle_shut;
  joins = f.joins;
  shut_joins = f.shut_joins;
  ends = f.ends;
  none_before = f.none_before;
  fails = f.fails;
}
Fits-Step (add g s) f = record {
  total = f.total;
  shut_stopped = f.shut_stopped;
  idle_shut = f.idle_shut;
  joins = f.joins;
  shut_joins = f.shut_joins;
  ends = f.ends;
  none_before = f.none_before;
  fails = f.fails;
}
Fits-Step (add_again g s d) f = record {
  total = f.total;
  shut_stopped = f.shut_stopped;
  idle_shut = f.idle_shut;
  joins = f.joins;
  shut_joins = f.shut_joins;
  ends = f.ends;
  none_before = f.none_before;
  fails = f.fails;
}
Fits-Step (take g n m e q) f = record {
  total = omega (arith, f.total, e);
  shut_stopped = f.shut_stopped;
  idle_shut = f.idle_shut;
  joins = f.joins;
  shut_joins = f.shut_joins;
  ends = f.ends;
  none_before = f.none_before;
  fails = f.fails;
}
Fits-Step (handled g n e d) f = record {
  total = omega (arith, f.total, e);
  shut_stopped = f.shut_stopped;
  idle_shut = f.idle_shut;
  joins = f.joins;
  shut_joins = f.shut_joins;
  ends = f.ends;
  none_before = f.none_before;
  fails = f.fails;
}
Fits-Step (handled_again g n m e d) f = record {
  total = omega (arith, f.total, e);
  shut_stopped = f.shut_stopped;
  idle_shut = f.idle_shut;
  joins = f.joins;
  shut_joins = f.shut_joins;
  ends = f.ends;
  none_before = f.none_before;
  fails = f.fails;
}
Fits-Step (finish g n e q s) f = record {
  total = omega (arith, f.total, e);
  shut_stopped = f.shut_stopped;
  idle_shut = inr s;
  joins = f.joins;
  shut_joins = f.shut_joins;
  ends = λ h. (s, omega (arith, (f.ends h).1));
  none_before = λ w h. omega (arith, f.none_before w h);
  fails = λ h. ((f.fails h).0, omega (arith, (f.fails h).1));
}
Fits-Step (again g n e s) f = absurd (ground (arith, e, s, f.idle_shut, f.shut_stopped))
Fits-Step (leave g n e s) f = record {
  total = f.total;
  shut_stopped = f.shut_stopped;
  idle_shut = elim f.idle_shut [ inl i ↦ absurd (omega (arith, i, e)) | inr i ↦ inr i ];
  joins = f.joins;
  shut_joins = f.shut_joins;
  ends = f.ends;
  none_before = f.none_before;
  fails = f.fails;
}
Fits-Step (shut_down g e s) f = record {
  total = f.total;
  shut_stopped = λ h. s;
  idle_shut = inr refl;
  joins = λ h. refl;
  shut_joins = λ h. inl refl;
  ends = λ h. absurd (cc h);
  none_before = λ w h. absurd (cc h);
  fails = λ h. absurd (cc h);
}
Fits-Step (join g e c) f = record {
  total = f.total;
  shut_stopped = f.shut_stopped;
  idle_shut = f.idle_shut;
  joins = λ h. absurd (cc h);
  shut_joins = λ h. inr refl;
  ends = λ h. (f.joins e, c);
  none_before = λ w h. absurd (cc h);
  fails = λ h. absurd (cc h);
}

pub Fits-Steps : {a b : Group} → Steps a b → Fits a → Fits b
Fits-Steps (here g) f = f
Fits-Steps (then run step) f = Fits-Step step (Fits-Steps run f)
