-- ===== src/Tests/Elected.antt =====
-- Processes with leader election.
use cert_broker.Base.{
  ℕ, ◌+◌, String, true, false, ◌≡◌, ◌≢◌, ◌↔◌, ◌⊎◌, inl, refl, none, [], ◌∷◌, ok, arith,
}
use cert_broker.Options.{Options}
use cert_broker.Controller.Group.{Phase, Group, skip, synced, launch as launch_worker, failed}
use cert_broker.Program.{Wiring}
use cert_broker.Program.Election.{Election}
use cert_broker.Program.Main.{execute, main, Beginning, candidate, Started, main_iff}
use cert_broker.Program.Process.{here, launched, waiting, exited}
use cert_broker.Program.Process.Invariant.{size}
use cert_broker.Program.Elected.{
  Candidate, campaign, Ticks, none_yet, and_then, acquire, launch, lose, work,
}
use cert_broker.Program.Elected.Laws.{AllStopped, Ticks-led, Ticks-stuck}
use cert_broker.Tests.Data.{world}
use cert_broker.Tests.Program.{files, options, all_exist, never_equal}

-- A host with a name and a lock that can be made.
abbrev named : Election files
named = record {
  Lock = String;
  Elector = String;
  hostname = ok "host";
  new_lock = λ client namespace name identity. ok identity;
  new_leader_elector = λ config. ok config.lock;
}

abbrev elected_options : Options
elected_options = record options { leader_election = true }

abbrev beginning : Beginning
beginning = candidate (campaign (4 ∷ 4 ∷ 1 ∷ 4 ∷ []))

main_iff_example :
    ((main files named world never_equal "class" "extensions/v1beta1" all_exist elected_options
        ≡ none)
      × (execute files named world never_equal "class" "extensions/v1beta1" all_exist
            elected_options
          ≡ ok beginning))
    ↔ ((w : Wiring files) × Started files named world never_equal "class" "extensions/v1beta1"
          all_exist elected_options beginning w)
main_iff_example =
    main_iff files named world never_equal "class" "extensions/v1beta1" all_exist elected_options
      beginning

-- One controller with one worker; the lease is acquired and the controller is launched.
abbrev ready : Candidate
ready = campaign (1 ∷ [])

abbrev leading : Candidate
leading = record ready { leads = true; left = []; groups = launched 1 false ∷ [] }

leading-Ticks : Ticks ready leading
leading-Ticks =
    and_then (and_then (none_yet ready) (acquire ready refl)) (launch _ 1 [] refl refl refl)

Ticks-led_example :
    ((leading.leads ≡ true) ⊎ (leading.groups ≡ []))
    × (size leading.groups + size leading.left ≡ size ready.left)
    × AllStopped leading.ended leading.groups
Ticks-led_example = Ticks-led (1 ∷ []) leading leading-Ticks

-- The lease is lost before the caches have synced, without any signal.
abbrev gave_up : Group
gave_up = record (launched 1 true) { phase = failed }

abbrev resigned : Candidate
resigned = record leading { main = exited 0; ended = true; groups = gave_up ∷ [] }

abbrev clean_exit : ℕ
clean_exit = 0

-- The worker is launched, and the lease is lost before its goroutine runs.
abbrev working : Group
working = record (launched 1 false) { phase = Phase.launching 0; count = 1; fresh = 1 }

abbrev lost : Group
lost = record working { stopped = true; fresh = 0; skipped = 1 }

abbrev stuck : Candidate
stuck = record leading { main = waiting; ended = true; groups = lost ∷ [] }

stuck-Ticks : Ticks ready stuck
unfolding cert_broker.Program.Process.stop_all
stuck-Ticks =
    let syncs = work leading _ refl (here _ _ [] (synced _ 1 refl) refl) in
    let launches = work _ (working ∷ []) refl (here _ working [] (launch_worker _ 0 refl) refl) in
    let skips = work _ (lost ∷ []) refl (here _ lost [] (skip _ 0 refl refl) refl) in
    and_then (and_then (and_then (and_then leading-Ticks syncs) launches) (lose _ refl refl)) skips

never_clean : stuck.main ≢ exited 0
never_clean = Ticks-stuck (1 ∷ []) stuck stuck stuck-Ticks (inl (omega arith)) (none_yet stuck)
