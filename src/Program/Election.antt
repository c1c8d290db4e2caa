-- ===== src/Program/Election.antt =====
-- cmd/leader-election.go. A duration is in nanoseconds.
use cert_broker.Base.{ℕ, ◌*◌, ◌<◌, String, Result, ok, err, ◌≡◌, ◌⊎◌, arith, inl, inr}
use cert_broker.Base.{Result-cases}
use cert_broker.Options.{Options}
use cert_broker.Program.{Libraries, wrap, ◌>>=◌}

pub record LeaderElectionConfig (Lock : Type 0) : Type 0 where
  pub lock : Lock
  pub lease_duration : ℕ
  pub renew_deadline : ℕ
  pub retry_period : ℕ

-- What it calls: os.Hostname, resourcelock.New for a config map by namespace, name and identity, and
-- NewLeaderElector of k8s.io/client-go/tools/leaderelection.
pub record Election (lib : Libraries) : Type 1 where
  pub Lock : Type 0
  pub Elector : Type 0
  pub hostname : Result lib.Error String
  pub new_lock : lib.Client → String → String → String → Result lib.Error Lock
  pub new_leader_elector : LeaderElectionConfig Lock → Result lib.Error Elector

pub data Refusal (E : Type 0) : Type 0 where
  no_client no_hostname no_lock no_elector : E → Refusal E

abbrev pub std_lease_duration : ℕ
std_lease_duration = 60_000_000_000

abbrev pub std_renew_deadline : ℕ
std_renew_deadline = 30_000_000_000

abbrev pub std_retry_period : ℕ
std_retry_period = 15_000_000_000

abbrev pub app_name : String
app_name = "cert-broker"

module _ (lib : Libraries) (election : Election lib) where
  open election use {Lock, Elector, hostname, new_lock, new_leader_elector}

  unfoldable pub make_leader_election_config :
      Options → lib.Client → Result (Refusal lib.Error) (LeaderElectionConfig Lock)
  make_leader_election_config o client = do
    identity ← wrap no_hostname hostname
    lock ← wrap no_lock (new_lock client o.resource_namespace app_name identity)
    ok (record {
      lock = lock;
      lease_duration = std_lease_duration;
      renew_deadline = std_renew_deadline;
      retry_period = std_retry_period;
    })

  -- runWithLeaderElection, up to the run of the elector.
  unfoldable pub run_with_leader_election :
      Options → lib.Config → Result (Refusal lib.Error) Elector
  unfolding make_leader_election_config
  run_with_leader_election o control_config = do
    client ← wrap no_client (lib.new_for_config control_config)
    config ← make_leader_election_config o client
    wrap no_elector (new_leader_elector config)

  -- What is documented of NewLeaderElector: it takes a configuration whose lease outlasts the deadline,
  -- whose deadline is above 1.2 times the period, and whose times are positive.
  abbrev pub IsAccepting : Type 0
  IsAccepting =
      (config : LeaderElectionConfig Lock)
      → config.renew_deadline < config.lease_duration
      → 12 * config.retry_period < 10 * config.renew_deadline
      → 0 < config.retry_period
      → (elector : Elector) × (new_leader_elector config ≡ ok elector)

  -- If NewLeaderElector takes every configuration that it documents as valid, then an error before
  -- the run of the elector is one of the client, of the host name or of the lock.
  pub run_with_leader_election-started :
      (o : Options) (control_config : lib.Config) (e : Refusal lib.Error)
      → IsAccepting
      → run_with_leader_election o control_config ≡ err e
      → (f : lib.Error) × ((e ≡ no_client f) ⊎ ((e ≡ no_hostname f) ⊎ (e ≡ no_lock f)))
  unfolding run_with_leader_election make_leader_election_config
  run_with_leader_election-started o control_config e accepting refused =
      elim (Result-cases (lib.new_for_config control_config)) [
        | inr (f, c) ↦ (f, inl (ground (arith, refused, c)))
        | inl (client, c) ↦ elim (Result-cases hostname) [
          | inr (f, h) ↦ (f, inr (inl (ground (arith, refused, c, h))))
          | inl (identity, h) ↦
              elim (Result-cases (new_lock client o.resource_namespace app_name identity)) [
                | inr (f, l) ↦ (f, inr (inr (ground (arith, refused, c, h, l))))
                | inl (lock, l) ↦
                    let config : LeaderElectionConfig Lock = record {
                      lock = lock;
                      lease_duration = std_lease_duration;
                      renew_deadline = std_renew_deadline;
                      retry_period = std_retry_period;
                    } in
                    let (elector, a) = accepting config (omega arith) (omega arith) (omega arith) in
                    absurd (ground (arith, refused, c, h, l, a))
              ]
        ]
      ]
