-- ===== src/Program.antt =====
-- cmd/controller-manager.go: the start of the broker, from its options to the four controllers.
pub mod Wired
pub mod Process
pub mod Election
pub mod Main
pub mod Cached
pub mod Elected
use cert_broker.Base.{
  ℕ, zero, suc, String, Bool, true, false, Option, none, some, List, [], ◌∷◌, Result, ok, err, ◌-◌,
  if◌then◌else◌,
}
use cert_broker.Base.Int.{ℤ, pos, negsuc, ltb}
use cert_broker.Base.Int
use cert_broker.Kube.{Object}
use cert_broker.Kube.Api.{Api}
use cert_broker.Template.{IngressTemplate, create_ingress_template}
use cert_broker.Options.{Options, Invalid, validate_controller_options}
use cert_broker.Informers.{
  Informer, target_ingresses, control_ingresses, control_secrets, control_events, certificates,
}
use cert_broker.Informers.Registration.{Registration}
use cert_broker.Controllers.Ingress as ingress
use cert_broker.Controllers.Secret as secret
use cert_broker.Controllers.Events as events
use cert_broker.Controllers.Cleaner as cleaner
use cert_broker.Turns.{Handlers}

-- What the start calls: k8s.io/client-go and k8s.io/client-go/dynamic.
pub record Libraries : Type 1 where
  pub Error : Type 0
  pub Config : Type 0
  pub Client : Type 0
  pub DynamicClient : Type 0
  -- clientcmd.BuildConfigFromFlags with an empty master URL
  pub build_config_from_flags : String → Result Error Config
  -- kubernetes.NewForConfig
  pub new_for_config : Config → Result Error Client
  -- dynamic.NewForConfig
  pub new_dynamic_for_config : Config → Result Error DynamicClient

-- The errors of RunE, each with the error that it wraps.
pub data Failure (E : Type 0) : Type 0 where
  invalid_options : Invalid → Failure E
  no_target_config no_control_config no_target_client no_control_client no_dynamic_client :
      E → Failure E

module _ {E F A : Type 0} where
  abbrev pub wrap : (E → F) → Result E A → Result F A
  wrap f (ok a) = ok a
  wrap f (err e) = err (f e)

module _ {E A B : Type 0} where
  infixl 5 ◌>>=◌
  abbrev pub ◌>>=◌ : Result E A → (A → Result E B) → Result E B
  ok a >>= f = f a
  err e >>= f = err e

-- int(n) of a 64-bit uint.
unfoldable pub int_of_uint : ℕ → ℤ
int_of_uint n =
    if ltb n 9_223_372_036_854_775_808 then pos n else negsuc (18_446_744_073_709_551_615 - n)

-- The loop `for i := 0; i < worker; i++` from an i, with a worker launched in each pass: how many.
unfoldable pub launch_loop : ℕ → ℕ → ℤ → ℕ
launch_loop zero i worker = 0
launch_loop (suc fuel) i worker =
    let rest = launch_loop fuel (suc i) worker in if Int.lt (pos i) worker then suc rest else 0

-- Enough fuel for the loop from 0.
unfoldable pub launch_fuel : ℤ → ℕ
launch_fuel (pos n) = suc n
launch_fuel (negsuc n) = 1

unfoldable pub launches : ℤ → ℕ
unfolding launch_loop launch_fuel
launches worker = launch_loop (launch_fuel worker) 0 worker

-- What the start leaves: the configuration and the clients, the namespaces of the informers, the handlers, what is registered
-- on which informer, in the order of the calls of NewController, and the numbers of workers that the
-- controllers launch, in the order of the go statements of `run`.
pub record Wiring (lib : Libraries) : Type 0 where
  pub control_config : lib.Config
  pub target_client : lib.Client
  pub control_client : lib.Client
  pub dynamic_client : lib.DynamicClient
  -- of all informers, in nanoseconds
  pub resync_period : ℕ
  pub control_namespace : String
  pub certificates_namespace : String
  pub template : IngressTemplate
  pub ingress_controller : ingress.Handler lib.Client
  pub ingress_cleaner : cleaner.Controller lib.Client
  pub secret_controller : secret.Handler lib.Client
  pub event_controller : events.Handler lib.Client
  -- the fields of the handlers that are values
  pub handlers : Handlers
  pub registrations : List (Informer × Registration)
  pub workers : List ℕ
  pub elected : Bool

-- `ingress_class` is the global of pkg/utils, `extensions_version` the name of the version of the
-- resources, `deep_equal` reflect.DeepEqual.
module _ (lib : Libraries) (api : Api) (deep_equal : Object → Object → Bool)
    (ingress_class extensions_version : String) where
  open lib use {
    Error, Config, Client, DynamicClient, build_config_from_flags, new_for_config,
    new_dynamic_for_config,
  }

  -- The four calls of NewController, and the closure `run`.
  unfoldable pub wire : Options → Config → Client → Client → DynamicClient → Wiring lib
  unfolding int_of_uint launches ingress.new_controller cleaner.new_controller secret.new_controller
      events.new_controller
  wire o config target control dyn =
      let template = create_ingress_template o.cluster_issuer o.acme_challenge_type in
      let (ingress_controller, ingress_registered) =
        ingress.new_controller Client api
          (record {
            resource_namespace = o.resource_namespace;
            client = control;
            ingress_lister = control_ingresses;
            ingress_sync = control_ingresses;
            secret_lister = control_secrets;
            secret_sync = control_secrets;
          })
          (record {
            client = target;
            ingress_informer = target_ingresses;
            ingress_lister = target_ingresses;
            ingress_sync = target_ingresses;
          })
          template o.domain_to_dns_provider in
      let (ingress_cleaner, cleaner_registered) =
        cleaner.new_controller Client api
          (record {
            resource_namespace = o.resource_namespace;
            client = control;
            ingress_informer = control_ingresses;
            ingress_lister = control_ingresses;
            ingress_sync = control_ingresses;
          })
          (record { ingress_lister = target_ingresses; ingress_sync = target_ingresses })
          o.update_control_ingress template in
      let (secret_controller, secret_registered) =
        secret.new_controller Client api deep_equal
          (record {
            resource_namespace = o.resource_namespace;
            client = control;
            secret_lister = control_secrets;
            secret_informer = control_secrets;
            secret_sync = control_secrets;
          })
          (record {
            client = target;
            ingress_lister = target_ingresses;
            ingress_sync = target_ingresses;
          }) in
      let (event_controller, event_registered) =
        events.new_controller Client api
          (record {
            event_informer = control_events;
            event_lister = control_events;
            event_sync = control_events;
            certificates_lister = certificates;
            certificates_sync = certificates;
            client = control;
          })
          (record {
            client = target;
            ingress_lister = target_ingresses;
            ingress_sync = target_ingresses;
          }) in
      record {
        control_config = config;
        target_client = target;
        control_client = control;
        dynamic_client = dyn;
        resync_period = 30_000_000_000;
        control_namespace = o.resource_namespace;
        certificates_namespace = o.resource_namespace;
        template = template;
        ingress_controller = ingress_controller;
        ingress_cleaner = ingress_cleaner;
        secret_controller = secret_controller;
        event_controller = event_controller;
        handlers = record {
          ingress = ingress.values Client ingress_class ingress_controller;
          cleaner = cleaner.values Client ingress_class ingress_cleaner;
          extensions_version = extensions_version;
        };
        registrations =
            ingress_registered ∷ cleaner_registered ∷ secret_registered ∷ event_registered ∷ [];
        workers =
            launches (int_of_uint o.ingress_worker_count)
            ∷ launches (int_of_uint o.secret_worker_count)
            ∷ launches (int_of_uint o.cleanup_worker_count)
            ∷ launches (int_of_uint o.event_worker_count)
            ∷ [];
        elected = o.leader_election;
      }

  unfoldable pub start_cert_broker : Options → Result (Failure Error) (Wiring lib)
  unfolding wire
  start_cert_broker o = do
    target_config ← wrap no_target_config (build_config_from_flags o.target_cluster_kubeconf)
    control_config ← wrap no_control_config (build_config_from_flags o.control_cluster_kubeconf)
    target_client ← wrap no_target_client (new_for_config target_config)
    control_client ← wrap no_control_client (new_for_config control_config)
    dynamic_client ← wrap no_dynamic_client (new_dynamic_for_config control_config)
    ok (wire o control_config target_client control_client dynamic_client)

  -- RunE of the command, up to the launch of the controllers.
  unfoldable pub run_e : (String → Bool) → Options → Result (Failure Error) (Wiring lib)
  run_e is_not_exist o = elim (validate_controller_options is_not_exist o) [
    | some e ↦ err (invalid_options e)
    | none ↦ start_cert_broker o
  ]
