-- ===== src/Program/Wired.antt =====
-- cmd/controller-manager.go: what a start that succeeds has made of the options.
use cert_broker.Base.{
  ℕ, zero, suc, refl, ◌+◌, ◌<◌, ◌-◌, Bool-cases, false, String, Bool, true, ◌↔◌, none, some, [],
  ◌∷◌, ok, ◌≡◌, sym, ap, arith, inl, inr, if◌then◌else◌,
}
use cert_broker.Base.{Option-cases, Result-cases}
use cert_broker.Base.Int.{ltb, pos, negsuc}
use cert_broker.Base.Text.{nonempty}
use cert_broker.Base.GoMap.{lookup}
use cert_broker.Kube.{Object}
use cert_broker.Kube.Api.{Api}
use cert_broker.Broker.{Broker}
use cert_broker.Template.{
  annotation_pairs, cluster_issuer_key, challenge_type_key, create_ingress_template,
}
use cert_broker.Options.{Options, validate_controller_options}
use cert_broker.Options.Laws.{validate_controller_options_iff}
use cert_broker.Turns.{Turns}
use cert_broker.Turns.Template.{Turns-issuer}
use cert_broker.Program.{
  Libraries, Wiring, wire, start_cert_broker, run_e, launch_loop, launch_fuel, launches,
  int_of_uint,
}

-- The number itself, and none where it is not an int.
abbrev pub launched_of : ℕ → ℕ
launched_of n = if ltb n 9_223_372_036_854_775_808 then n else 0

-- With more fuel than passes, the loop makes one pass for each number from i on.
launch_loop-enough : (k fuel i n : ℕ) → i + k ≡ n → k < fuel → launch_loop fuel i (pos n) ≡ k
unfolding launch_loop
launch_loop-enough k zero i n e h = absurd (omega (arith, h))
launch_loop-enough zero (suc fuel) i n e h =
    let past : ltb i n ≡ false = ground (arith, e) in rw past refl
launch_loop-enough (suc k) (suc fuel) i n e h =
    let more : ltb i n ≡ true = ground (arith, e) in
    rw (more, launch_loop-enough k fuel (suc i) n (omega (arith, e)) (omega (arith, h))) refl

launches-pos : (n : ℕ) → launches (pos n) ≡ n
unfolding launches launch_fuel
launches-pos n = launch_loop-enough n (suc n) 0 n (omega arith) (omega arith)

launches-negsuc : (n : ℕ) → launches (negsuc n) ≡ 0
unfolding launches launch_loop launch_fuel
launches-negsuc n = refl

launches-int_of_uint : (n : ℕ) → launches (int_of_uint n) ≡ launched_of n
unfolding int_of_uint
launches-int_of_uint n = elim (Bool-cases (ltb n 9_223_372_036_854_775_808)) [
  | inl e ↦ rw e (launches-pos n)
  | inr e ↦ rw e (launches-negsuc (18_446_744_073_709_551_615 - n))
]

module _ (lib : Libraries) (api : Api) (deep_equal : Object → Object → Bool)
    (ingress_class extensions_version : String) (is_not_exist : String → Bool) (o : Options)
    (w : Wiring lib) where
  open lib use {Config, build_config_from_flags, new_for_config, new_dynamic_for_config}

  -- The options pass the checks, and the clients are of the clusters that the options name.
  abbrev pub IsWired : Type 0
  IsWired =
      (validate_controller_options is_not_exist o ≡ none)
      × (target : Config) × (build_config_from_flags o.target_cluster_kubeconf ≡ ok target)
      × (build_config_from_flags o.control_cluster_kubeconf ≡ ok w.control_config)
      × (new_for_config target ≡ ok w.target_client)
      × (new_for_config w.control_config ≡ ok w.control_client)
      × (new_dynamic_for_config w.control_config ≡ ok w.dynamic_client)
      × (wire lib api deep_equal ingress_class extensions_version o w.control_config w.target_client
            w.control_client w.dynamic_client
          ≡ w)

  -- The steps succeed, one after the other.
  start_cert_broker-IsWired :
      validate_controller_options is_not_exist o ≡ none
      → start_cert_broker lib api deep_equal ingress_class extensions_version o ≡ ok w
      → IsWired
  unfolding start_cert_broker wire
  start_cert_broker-IsWired v started =
      elim (Result-cases (build_config_from_flags o.target_cluster_kubeconf)) [
        | inr (e, t) ↦ absurd (ground (arith, started, t))
        | inl (target, t) ↦
            elim (Result-cases (build_config_from_flags o.control_cluster_kubeconf)) [
              | inr (e, c) ↦ absurd (ground (arith, started, t, c))
              | inl (control, c) ↦ elim (Result-cases (new_for_config target)) [
                | inr (e, t') ↦ absurd (ground (arith, started, t, c, t'))
                | inl (target_client, t') ↦ elim (Result-cases (new_for_config control)) [
                  | inr (e, c') ↦ absurd (ground (arith, started, t, c, t', c'))
                  | inl (control_client, c') ↦
                      elim (Result-cases (new_dynamic_for_config control)) [
                        | inr (e, d) ↦ absurd (ground (arith, started, t, c, t', c', d))
                        | inl (dynamic_client, d) ↦
                            let done : wire lib api deep_equal ingress_class extensions_version o
                                  control target_client control_client dynamic_client
                                ≡ w =
                              ground (arith, started, t, c, t', c', d) in
                            let e_k : control ≡ w.control_config =
                              ap (λ (x : Wiring lib). x.control_config) done in
                            let e_t : target_client ≡ w.target_client =
                              ap (λ (x : Wiring lib). x.target_client) done in
                            let e_c : control_client ≡ w.control_client =
                              ap (λ (x : Wiring lib). x.control_client) done in
                            let e_d : dynamic_client ≡ w.dynamic_client =
                              ap (λ (x : Wiring lib). x.dynamic_client) done in
                            (
                              v,
                              target,
                              t,
                              rw e_k at c,
                              rw e_t at t',
                              rw (e_k, e_c) at c',
                              rw (e_k, e_d) at d,
                              rw (e_k, e_t, e_c, e_d) at done,
                            )
                      ]
                ]
              ]
            ]
      ]

  -- RunE makes the controllers of a wiring exactly if the options pass their checks, the target
  -- client is made from the configuration file of the target cluster, both control clients are made
  -- from that of the control cluster, all without an error, and the wiring is that of the options
  -- and of these clients.
  pub run_e_iff :
      (run_e lib api deep_equal ingress_class extensions_version is_not_exist o ≡ ok w) ↔ IsWired
  unfolding run_e start_cert_broker
  run_e_iff = (
    λ started. elim (Option-cases (validate_controller_options is_not_exist o)) [
      | inr (e, v) ↦ absurd (ground (arith, started, v))
      | inl v ↦ start_cert_broker-IsWired v (ground (arith, started, v))
    ],
    λ (v, target, t, c, t', c', d, e). ground (arith, v, t, c, t', c', d, e),
  )

  module _
      (started : run_e lib api deep_equal ingress_class extensions_version is_not_exist o
        ≡ ok w) where
    pub wired :
        wire lib api deep_equal ingress_class extensions_version o w.control_config w.target_client
          w.control_client w.dynamic_client
        ≡ w
    wired = let (_, _, _, _, _, _, _, e) = run_e_iff.0 started in e

    template_of : w.template ≡ create_ingress_template o.cluster_issuer o.acme_challenge_type
    unfolding wire
    template_of = sym (ap (λ (x : Wiring lib). x.template) wired)

    -- If RunE accepts the options and the start succeeds, then the challenge type is not empty, and
    -- after any turns of the four controllers with the handlers made, from a state with the
    -- template made, in any world, the annotations of the template have the cluster issuer and the
    -- challenge type of the options.
    pub run_e-annotations :
        (Changes : api.World → api.World → Type 0) (s s' : Broker api.World)
        → s.template ≡ w.template
        → Turns api Changes w.handlers s s'
        → (nonempty o.acme_challenge_type ≡ true)
          × (lookup cluster_issuer_key (annotation_pairs ingress_class s'.template)
              ≡ some o.cluster_issuer)
          × (lookup challenge_type_key (annotation_pairs ingress_class s'.template)
              ≡ some o.acme_challenge_type)
    unfolding create_ingress_template
    run_e-annotations Changes s s' at_start run =
        let (issuer, challenge) = Turns-issuer api Changes w.handlers s s' ingress_class run in
        let (_, _, given) =
          (validate_controller_options_iff is_not_exist o).0 (run_e_iff.0 started).0 in
        (given, rw (at_start, template_of) at issuer, rw (at_start, template_of) at challenge)

    -- If the start succeeds, then each controller launches as many workers as its option says if
    -- the number is below 2^63, and none otherwise.
    pub run_e-workers :
        w.workers
        ≡ launched_of o.ingress_worker_count
          ∷ launched_of o.secret_worker_count
          ∷ launched_of o.cleanup_worker_count
          ∷ launched_of o.event_worker_count
          ∷ []
    unfolding wire
    run_e-workers =
        let e = sym (ap (λ (x : Wiring lib). x.workers) wired) in
        rw
          (
            launches-int_of_uint o.ingress_worker_count,
            launches-int_of_uint o.secret_worker_count,
            launches-int_of_uint o.cleanup_worker_count,
            launches-int_of_uint o.event_worker_count,
          )
          at e
