-- ===== src/Program/Main.antt =====
-- main.go and the end of startCertBroker in cmd/controller-manager.go: from the options to a process
-- of Process.antt or of Elected.antt, or to an exit at once. `Execute` of the command, which parses the
-- options and calls RunE, is cobra's: the options are an argument.
use cert_broker.Base.{
  ℕ, String, Bool, true, false, Option, none, some, [], ◌∷◌, List, Result, ok, err, ◌≡◌, ◌⊎◌, ◌↔◌,
  inl, inr, sym, ap, ◌∙◌, arith, if◌then◌else◌, Result-cases, Bool-cases,
}
use cert_broker.Kube.{Object}
use cert_broker.Kube.Api.{Api}
use cert_broker.Options.{Options}
use cert_broker.Program.{Libraries, Failure, Wiring, wire, wrap, ◌>>=◌, run_e}
use cert_broker.Program.Wired.{IsWired, run_e_iff, run_e-workers, launched_of, wired}
use cert_broker.Program.Election.{Election, Refusal, run_with_leader_election}
use cert_broker.Program.Process.{Process, begin}
use cert_broker.Program.Elected.{Candidate, campaign}

pub data Complaint (E : Type 0) : Type 0 where
  not_started : Failure E → Complaint E
  not_elected : Refusal E → Complaint E

pub data Beginning : Type 0 where
  alone : Process → Beginning
  candidate : Candidate → Beginning

module _ (lib : Libraries) (election : Election lib) (api : Api)
    (deep_equal : Object → Object → Bool) (ingress_class extensions_version : String)
    (is_not_exist : String → Bool) where
  -- RunE, with the controllers at their launch. If the elector cannot be made, then the wait for the
  -- controllers returns at once, since none was launched.
  unfoldable pub execute : Options → Result (Complaint lib.Error) Beginning
  execute o = do
    w ← wrap not_started (run_e lib api deep_equal ingress_class extensions_version is_not_exist o)
    if w.elected
        then (do
          elector ← wrap not_elected (run_with_leader_election lib election o w.control_config)
          ok (candidate (campaign w.workers)))
        else ok (alone (begin w.workers))

  -- main: the exit code, if the process ends at once.
  unfoldable pub main : Options → Option ℕ
  main o = elim (execute o) [ err e ↦ some 1 | ok b ↦ none ]

  module _ (o : Options) (b : Beginning) where
    abbrev workers_of : List ℕ
    workers_of =
        launched_of o.ingress_worker_count
        ∷ launched_of o.secret_worker_count
        ∷ launched_of o.cleanup_worker_count
        ∷ launched_of o.event_worker_count
        ∷ []

    abbrev pub Started : Wiring lib → Type 0
    Started w =
        IsWired lib api deep_equal ingress_class extensions_version is_not_exist o w
        × (((o.leader_election ≡ false) × (b ≡ alone (begin workers_of)))
            ⊎ ((o.leader_election ≡ true)
                × (elector : election.Elector) × (run_with_leader_election lib election o
                      w.control_config
                    ≡ ok elector)
                × (b ≡ candidate (campaign workers_of))))

    abbrev run : Result (Failure lib.Error) (Wiring lib)
    run = run_e lib api deep_equal ingress_class extensions_version is_not_exist o

    elected_of : (w : Wiring lib) → run ≡ ok w → w.elected ≡ o.leader_election
    unfolding wire
    elected_of w e = sym (
        ap (λ (x : Wiring lib). x.elected)
          (wired lib api deep_equal ingress_class extensions_version is_not_exist o w e))

    workers_same : (w : Wiring lib) → run ≡ ok w → w.workers ≡ workers_of
    workers_same w e =
        run_e-workers lib api deep_equal ingress_class extensions_version is_not_exist o w e

    execute_iff : (execute o ≡ ok b) ↔ ((w : Wiring lib) × Started w)
    unfolding execute
    execute_iff = (
      λ done. elim (Result-cases run) [
        | inr (f, e) ↦ absurd (ground (arith, done, e))
        | inl (w, e) ↦
            let made =
              (run_e_iff lib api deep_equal ingress_class extensions_version is_not_exist o w).0
                e in
            let l = elected_of w e in
            let k = workers_same w e in
            elim (Bool-cases w.elected) [
              | inr n ↦ (w, (made, inl (sym l ∙ n, ground (arith, done, e, n, k))))
              | inl y ↦
                  elim (Result-cases (run_with_leader_election lib election o w.control_config)) [
                    | inr (f, r) ↦ absurd (ground (arith, done, e, y, r))
                    | inl (elector, r) ↦
                        (w, (made, inr (sym l ∙ y, elector, r, ground (arith, done, e, y, r, k))))
                  ]
            ]
      ],
      λ (w, (made, how)).
          let e =
            (run_e_iff lib api deep_equal ingress_class extensions_version is_not_exist o w).1
              made in
          let l = elected_of w e in
          let k = workers_same w e in
          elim how [
            | inl (n, same) ↦ ground (arith, e, l, k, n, same)
            | inr (y, elector, r, same) ↦ ground (arith, e, l, k, y, r, same)
          ],
    )

    main-ok : execute o ≡ ok b → main o ≡ none
    unfolding main
    main-ok e = ground (arith, e)

    -- The program does not exit at once but begins as a given process exactly if the options pass
    -- their checks and all clients are made, the dynamic one from the configuration of the control
    -- cluster, and, with leader election, the elector is made too, and the process is the one with
    -- leader election or the one without, as the options say, each with the workers that the
    -- options say.
    pub main_iff : ((main o ≡ none) × (execute o ≡ ok b)) ↔ ((w : Wiring lib) × Started w)
    main_iff = (
      λ (going, done). execute_iff.0 done,
      λ started. let done = execute_iff.1 started in (main-ok done, done),
    )
