-- ===== src/Controller/Group/Laws.antt =====
-- pkg/common/controller.go: the runs of Start and its goroutines.
use cert_broker.Base.{ℕ, zero, suc, ◌+◌, ◌≤◌, ◌<◌, true, ◌≡◌, ◌≢◌, ◌⊎◌, inl, inr, refl, arith}
use cert_broker.Controller.Group.{
  Phase, joining, finished, Group, IsReturned, initial, Step, synced, not_synced, launch, launched,
  stop, enter, skip, add, add_again, take, handled, handled_again, finish, again, leave, shut_down,
  join, Steps, here, then,
}
use cert_broker.Controller.Group.Invariant.{Fits, Fits-initial, Fits-Step, Fits-Steps}

-- When Start has returned, for any number of workers and any interleaving of their steps, the queue
-- is shut down, no goroutine is before or in a call of runWorker, and none has ended without one.
pub Steps-finished :
    (worker : ℕ) (g : Group)
    → Steps (initial worker) g
    → g.phase ≡ finished
    → (g.shut ≡ true) × (g.fresh ≡ 0) × (g.running ≡ 0) × (g.busy ≡ 0) × (g.skipped ≡ 0)
Steps-finished worker g run e =
    let f = Fits-Steps run (Fits-initial worker) in
    let (s, c) = f.ends e in
    (
      s,
      omega (arith, f.total, c),
      omega (arith, f.total, c),
      omega (arith, f.total, c),
      omega (arith, f.total, c),
    )

-- The same of any return, and that it takes a closed stop channel.
pub Steps-returned :
    (worker : ℕ) (g : Group)
    → Steps (initial worker) g
    → IsReturned g
    → (g.stopped ≡ true) × (g.fresh ≡ 0) × (g.running ≡ 0) × (g.busy ≡ 0) × (g.skipped ≡ 0)
Steps-returned worker g run r =
    let f = Fits-Steps run (Fits-initial worker) in
    let (s, c) : (g.stopped ≡ true) × (g.count ≡ 0) = elim r [
      | inl e ↦ (f.shut_stopped (f.ends e).0, (f.ends e).1)
      | inr e ↦ f.fails e
    ] in
    (
      s,
      omega (arith, f.total, c),
      omega (arith, f.total, c),
      omega (arith, f.total, c),
      omega (arith, f.total, c),
    )

pub skipped-Step : {g g' : Group} → Step g g' → g.skipped ≤ g'.skipped
skipped-Step (synced g w e) = omega arith
skipped-Step (not_synced g w e s) = omega arith
skipped-Step (launch g left e) = omega arith
skipped-Step (launched g e) = omega arith
skipped-Step (stop g e) = omega arith
skipped-Step (enter g n e s) = omega arith
skipped-Step (skip g n e s) = omega arith
skipped-Step (add g s) = omega arith
skipped-Step (add_again g s d) = omega arith
skipped-Step (take g n m e q) = omega arith
skipped-Step (handled g n e d) = omega arith
skipped-Step (handled_again g n m e d) = omega arith
skipped-Step (finish g n e q s) = omega arith
skipped-Step (again g n e s) = omega arith
skipped-Step (leave g n e s) = omega arith
skipped-Step (shut_down g e s) = omega arith
skipped-Step (join g e c) = omega arith

skipped-Steps : {a b : Group} → Steps a b → a.skipped ≤ b.skipped
skipped-Steps (here g) = omega arith
skipped-Steps (then run step) = omega (arith, skipped-Steps run, skipped-Step step)

Steps-trans : {a b c : Group} → Steps a b → Steps b c → Steps a c
Steps-trans run (here g) = run
Steps-trans run (then rest step) = then (Steps-trans run rest) step

-- Once a goroutine has ended without a call of runWorker, which the closed stop channel makes it do
-- if it has not looked at it before, Start does not return, whatever steps follow.
pub Steps-skipped :
    (worker : ℕ) (g g' : Group)
    → Steps (initial worker) g
    → 0 < g.skipped
    → Steps g g'
    → g'.phase ≢ finished
Steps-skipped worker g g' run some_skipped rest e =
    let (s, a, b, c, none_skipped) = Steps-finished worker g' (Steps-trans run rest) e in
    omega (arith, some_skipped, skipped-Steps rest, none_skipped)

-- The goroutines that work and the items left, with weights that go down along their lives.
phase_rank : Phase → ℕ
phase_rank joining = 1
phase_rank _ = 0

unfoldable pub rank : Group → ℕ
unfolding phase_rank
rank g =
    g.fresh
    + (g.running + g.running)
    + (g.busy + g.busy + g.busy)
    + (g.queue + g.queue)
    + (g.dirty + g.dirty)
    + g.idle
    + phase_rank g.phase

rank_drops : {g g' : Group} → Step g g' → Fits g → g.shut ≡ true → rank g' < rank g
unfolding rank phase_rank
rank_drops (synced g w e) f s = absurd (ground (arith, e, f.shut_joins s))
rank_drops (not_synced g w e r) f s = absurd (ground (arith, e, f.shut_joins s))
rank_drops (launch g left e) f s = absurd (ground (arith, e, f.shut_joins s))
rank_drops (launched g e) f s = absurd (ground (arith, e, f.shut_joins s))
rank_drops (stop g e) f s = absurd (ground (arith, e, f.shut_stopped s))
rank_drops (enter g n e r) f s = absurd (ground (arith, r, f.shut_stopped s))
rank_drops (skip g n e r) f s = omega (arith, e)
rank_drops (add g r) f s = absurd (cc (r, s))
rank_drops (add_again g r d) f s = absurd (cc (r, s))
rank_drops (take g n m e q) f s = omega (arith, e, q)
rank_drops (handled g n e d) f s = omega (arith, e)
rank_drops (handled_again g n m e d) f s = omega (arith, e, d)
rank_drops (finish g n e q r) f s = omega (arith, e)
rank_drops (again g n e r) f s = absurd (ground (arith, r, f.shut_stopped s))
rank_drops (leave g n e r) f s = omega (arith, e)
rank_drops (shut_down g e r) f s = absurd (ground (arith, e, f.shut_joins s))
rank_drops (join g e c) f s = rw e (omega arith)

-- In every reachable state of Start and its goroutines in which the queue is shut down, each step
-- lowers the rank, a natural number: only finitely many steps follow.
pub rank-Step :
    (worker : ℕ) (g g' : Group)
    → Steps (initial worker) g
    → g.shut ≡ true
    → Step g g'
    → rank g' < rank g
rank-Step worker g g' run s step = rank_drops step (Fits-Steps run (Fits-initial worker)) s

ℕ-cases : (n : ℕ) → (n ≡ 0) ⊎ ((m : ℕ) × (n ≡ suc m))
ℕ-cases zero = inl refl
ℕ-cases (suc n) = inr (n, refl)

-- The state after a step has less to do.
abbrev Next : Group → Type 0
Next g = (g' : Group) × Step g g' × (g'.phase ≡ joining) × (g'.fresh ≡ 0) × (g'.skipped ≡ 0)

-- While some goroutine is in runWorker, one of them can go on.
next :
    (g : Group) → Fits g → g.phase ≡ joining → g.fresh ≡ 0 → g.skipped ≡ 0 → Next g ⊎ (g.count ≡ 0)
next g f e h k = elim (ℕ-cases g.busy) [
  | inr (n, b) ↦ elim (ℕ-cases g.dirty) [
    | inr (m, d) ↦ inl (_, handled_again g n m b d, e, h, k)
    | inl d ↦ inl (_, handled g n b (omega (arith, d)), e, h, k)
  ]
  | inl b ↦ elim (ℕ-cases g.running) [
    | inr (n, r) ↦ elim (ℕ-cases g.queue) [
      | inr (m, q) ↦ inl (_, take g n m r q, e, h, k)
      | inl q ↦ inl (_, finish g n r q (f.joins e), e, h, k)
    ]
    | inl r ↦ inr (omega (arith, f.total, b, r, h, k))
  ]
]

-- The goroutines empty the queue and end, and then Wait returns.
ends_from :
    (fuel : ℕ) (g : Group)
    → Fits g
    → rank g < fuel
    → g.phase ≡ joining
    → g.fresh ≡ 0
    → g.skipped ≡ 0
    → (g' : Group) × Steps g g' × (g'.phase ≡ finished)
ends_from zero g f r e h k = absurd (omega (arith, r))
ends_from (suc fuel) g f r e h k = elim (next g f e h k) [
  | inr c ↦ (record g { phase = finished }, then (here g) (join g e c), refl)
  | inl (g1, step, e', h', k') ↦
      let less = rank_drops step f (f.joins e) in
      let (g', run, done) =
        ends_from fuel g1 (Fits-Step step f) (omega (arith, r, less)) e' h' k' in
      (g', Steps-trans (then (here g) step) run, done)
]

-- From every reachable state in which Start waits for its workers, whatever items are left in the
-- queue, no goroutine is before its first look at the stop channel and none has ended without a
-- call of runWorker, some run leads to the return of Start.
pub Steps-joining :
    (worker : ℕ) (g : Group)
    → Steps (initial worker) g
    → g.phase ≡ joining
    → g.fresh ≡ 0
    → g.skipped ≡ 0
    → (g' : Group) × Steps g g' × (g'.phase ≡ finished)
Steps-joining worker g run e h k =
    ends_from (suc (rank g)) g (Fits-Steps run (Fits-initial worker)) (omega arith) e h k
