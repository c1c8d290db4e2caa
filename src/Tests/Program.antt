-- ===== src/Tests/Program.antt =====
-- The start of the program and its end on concrete options.
use cert_broker.Base.{
  ℕ, String, Bool, true, false, ◌≡◌, ◌≢◌, ◌⊎◌, inl, inr, refl, some, [], ◌∷◌, ok, err, arith,
}
use cert_broker.Base.Text.{nonempty}
use cert_broker.Base.GoMap.{lookup}
use cert_broker.Kube.{Object}
use cert_broker.Template.{annotation_pairs, cluster_issuer_key, challenge_type_key}
use cert_broker.Options.{Options, new_controller_options}
use cert_broker.Controller.Group.{
  Phase, Group, skip, not_synced, synced, launch as launch_worker, failed,
}
use cert_broker.Informers.{secret_informer_syncs}
use cert_broker.Controllers.Secret.{get_informer_syncs}
use cert_broker.Program.{Libraries, Wiring, wire, run_e}
use cert_broker.Program.Wired.{run_e-annotations, run_e-workers}
use cert_broker.Program.Election.{
  Election, Refusal, no_hostname, no_client, no_lock, run_with_leader_election,
  run_with_leader_election-started,
}
use cert_broker.Program.Process.{
  Process, begin, here, Ticks, none_yet, and_then, launch, run_returns, work, wait_returns,
  first_signal, cancel, AnyBusy,
}
use cert_broker.Program.Process as process
use cert_broker.Program.Process.Invariant.{size}
use cert_broker.Program.Process.Laws.{AllEnded, Ticks-exited, Ticks-hung}
use cert_broker.Broker.{Broker}
use cert_broker.Kube.Store.{Store}
use cert_broker.Ingress.Sync.{sync}
use cert_broker.Turns.{ingress_turn}
use cert_broker.Turns.{none_yet as no_turn, and_then as turn_then}
use cert_broker.Tests.Turns.{Idle}
use cert_broker.Tests.Data.{world, before}

-- Configurations and clients are the paths of their files.
abbrev pub files : Libraries
files = record {
  Error = String;
  Config = String;
  Client = String;
  DynamicClient = String;
  build_config_from_flags = λ path. ok path;
  new_for_config = λ path. ok path;
  new_dynamic_for_config = λ path. ok path;
}

abbrev pub options : Options
options = record new_controller_options {
  target_cluster_kubeconf = "target";
  control_cluster_kubeconf = "control";
  cluster_issuer = "issuer";
}

abbrev pub all_exist : String → Bool
all_exist path = false

abbrev pub never_equal : Object → Object → Bool
never_equal o n = false

abbrev pub wiring : Wiring files
unfolding wire
wiring =
    wire files world never_equal "class" "extensions/v1beta1" options "control" "target" "control"
      "control"

pub started :
    run_e files world never_equal "class" "extensions/v1beta1" all_exist options ≡ ok wiring
unfolding run_e cert_broker.Program.start_cert_broker
    cert_broker.Options.validate_controller_options
started = refl

pub secret_waits : get_informer_syncs String wiring.secret_controller ≡ secret_informer_syncs
unfolding wiring wire get_informer_syncs
secret_waits = refl

abbrev pub at_start : Broker Store
at_start = record { world = before; template = wiring.template }

abbrev reached : Broker Store
reached = (sync world wiring.handlers.ingress "shop/web" at_start).1

launched_workers : wiring.workers ≡ 4 ∷ 4 ∷ 1 ∷ 4 ∷ []
launched_workers =
    run_e-workers files world never_equal "class" "extensions/v1beta1" all_exist options wiring
      started

run_e-annotations_example :
    (nonempty "dns01" ≡ true)
    × (lookup cluster_issuer_key (annotation_pairs "class" reached.template) ≡ some "issuer")
    × (lookup challenge_type_key (annotation_pairs "class" reached.template) ≡ some "dns01")
run_e-annotations_example =
    run_e-annotations files world never_equal "class" "extensions/v1beta1" all_exist options wiring
      started Idle at_start reached refl (turn_then no_turn (ingress_turn "shop/web" at_start))

-- A host that has no name.
abbrev nameless : Election files
nameless = record {
  Lock = String;
  Elector = String;
  hostname = err "no name";
  new_lock = λ client namespace name identity. ok identity;
  new_leader_elector = λ config. ok config.lock;
}

run_with_leader_election-started_example :
    (f : String) × ((no_hostname "no name" ≡ no_client f)
      ⊎ ((no_hostname "no name" ≡ no_hostname f) ⊎ (no_hostname "no name" ≡ no_lock f)))
unfolding run_with_leader_election cert_broker.Program.Election.make_leader_election_config
run_with_leader_election-started_example =
    run_with_leader_election-started files nameless options "control" (no_hostname "no name")
      (λ config a b c. (config.lock, refl)) refl

-- One controller with one worker.
abbrev single : Process
single = begin (1 ∷ [])

-- The controller is launched, and the main goroutine waits for it.
abbrev awaited : Process
awaited = record single {
  main = process.waiting;
  left = [];
  groups = process.launched 1 false ∷ [];
}

awaited-Ticks : Ticks single awaited
awaited-Ticks =
    and_then (and_then (none_yet single) (launch single 1 [] refl refl)) (run_returns _ refl refl)

-- A signal arrives before the caches have synced.
abbrev gave_up : Group
gave_up = record (process.launched 1 true) { phase = failed }

abbrev ended : Process
ended = record awaited {
  main = process.exited 0;
  signals = process.at_second;
  cancelled = true;
  groups = gave_up ∷ [];
}

ended-Ticks : Ticks single ended
unfolding process.stop_all
ended-Ticks =
    and_then
      (and_then
        (and_then (and_then awaited-Ticks (first_signal awaited refl refl)) (cancel _ refl refl))
        (work _ (gave_up ∷ []) refl (here _ gave_up [] (not_synced _ 1 refl refl) refl)))
      (wait_returns _ refl (inr refl, tt))

abbrev clean_exit : ℕ
clean_exit = 0

Ticks-exited_example :
    ((ended.cancelled ≡ true)
      × (((clean_exit ≡ 0) × (size ended.groups ≡ size single.left) × AllEnded ended.groups)
          ⊎ ((clean_exit ≡ 1) × (ended.signals ≡ process.at_second))))
    ⊎ ((clean_exit ≡ 2) × AnyBusy ended.groups)
Ticks-exited_example = Ticks-exited 1 [] ended clean_exit ended-Ticks refl

-- The worker is launched, and a signal arrives before its goroutine runs.
abbrev working : Group
working = record (process.launched 1 false) { phase = Phase.launching 0; count = 1; fresh = 1 }

abbrev lost : Group
lost = record working { stopped = true; fresh = 0; skipped = 1 }

abbrev hung : Process
hung = record awaited { signals = process.at_second; cancelled = true; groups = lost ∷ [] }

hung-Ticks : Ticks single hung
unfolding process.stop_all
hung-Ticks =
    let syncs = work awaited _ refl (here _ _ [] (synced _ 1 refl) refl) in
    let launches = work _ (working ∷ []) refl (here _ working [] (launch_worker _ 0 refl) refl) in
    let skips = work _ (lost ∷ []) refl (here _ lost [] (skip _ 0 refl refl) refl) in
    and_then
      (and_then
        (and_then (and_then (and_then awaited-Ticks syncs) launches) (first_signal _ refl refl))
        (cancel _ refl refl))
      skips

Ticks-hung_example : hung.main ≢ process.exited 0
Ticks-hung_example = Ticks-hung 1 [] hung hung hung-Ticks (inl (omega arith)) (none_yet hung)
