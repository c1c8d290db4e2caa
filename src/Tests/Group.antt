-- ===== src/Tests/Group.antt =====
-- Start with one worker: a run to its end, and one in which the stop channel is closed before the
-- worker's goroutine first looks at it.
use cert_broker.Base.{◌<◌, ◌≡◌, refl, true, arith}
use cert_broker.Controller.Group.{
  Phase, Group, initial, finished, synced, launch, launched, stop, enter, skip, add, take, handled,
  finish, shut_down, join, Steps, here, then,
}
use cert_broker.Controller.Group.Laws.{rank, rank-Step, Steps-joining}

-- The worker handles an item, and the queue, in which another one waits, is shut down.
abbrev shut : Group
shut = record (initial 1) {
  phase = Phase.joining;
  stopped = true;
  shut = true;
  queue = 1;
  count = 1;
  busy = 1;
}

shut-Steps : Steps (initial 1) shut
shut-Steps =
    let launches = then (then (here _) (synced _ 1 refl)) (launch _ 0 refl) in
    let works = then (then launches (launched _ refl)) (enter _ 0 refl refl) in
    let takes = then (then works (add _ refl)) (take _ 0 0 refl refl) in
    then (then (then takes (add _ refl)) (stop _ refl)) (shut_down _ refl refl)

-- The worker is at Get.
abbrev back : Group
back = record shut { busy = 0; running = 1 }

-- The worker has left runWorker.
abbrev left : Group
left = record back { queue = 0; count = 0; running = 0; idle = 1 }

abbrev ended : Group
ended = record left { phase = finished }

ended-Steps : Steps (initial 1) ended
ended-Steps =
    let takes = then (then shut-Steps (handled _ 0 refl (omega arith))) (take _ 0 0 refl refl) in
    let handles = then takes (handled _ 0 refl (omega arith)) in
    then (then handles (finish _ 0 refl refl refl)) (join _ refl refl)

rank-Step_example : rank back < rank shut
rank-Step_example = rank-Step 1 shut back shut-Steps refl (handled shut 0 refl (omega arith))

Steps-joining_example : (g' : Group) × Steps shut g' × (g'.phase ≡ finished)
Steps-joining_example = Steps-joining 1 shut shut-Steps refl refl refl

-- The worker's goroutine has ended without a call of runWorker.
abbrev hung : Group
hung = record (initial 1) {
  phase = Phase.joining;
  stopped = true;
  shut = true;
  count = 1;
  skipped = 1;
}

hung-Steps : Steps (initial 1) hung
hung-Steps =
    then
      (then
        (then (then (then (then (here _) (synced _ 1 refl)) (launch _ 0 refl)) (launched _ refl))
          (stop _ refl))
        (skip _ 0 refl refl))
      (shut_down _ refl refl)
