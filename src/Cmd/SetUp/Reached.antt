-- ===== src/Cmd/SetUp/Reached.antt =====
-- cmd/vnode/main.go: what is set up when the manager is started.
use vnode.Base.{
  ℕ, ◌≡◌, ◌⊎◌, inl, inr, refl, ap, ◌∙◌, String, true, false, Option, none, some, [], ◌∷◌, ◌++◌,
  arith,
}
use vnode.Base.Errors.{Error, ok}
use vnode.Base.Exec.{Call, Action, answer}
use vnode.Base.Exec.Outcome.{outcome_attempt}
use vnode.Adapter.Controllers.{Controller}
use vnode.Config.{Config, default_config, validate_config}
use vnode.Cmd.{
  Operator, Libraries, Manager, Startup, options_of, pool_reconciler, vnode_reconciler,
  pod_sync_reconciler, no_clients, exit, or_exit, run_manager, start_up, main,
}
use vnode.Cmd.SetUp.{
  Told, nothing_told, IsOurs, of_pools, of_vnodes, of_pods, ManagerLaws, StartupLaws, IsSetUp,
}

module _ {Q V C W R : Type 0} (K : Type 0) (libs : Libraries Q V C W R)
    (told : Operator V C W → Told (Operator V C W)) (runtime_class : String) where
  -- If the manager was started, or the program exits with 0, all is set up.
  abbrev Ran : ℕ × Operator V C W → Type 0
  Ran (status, t) = ((told t).started ≡ true) ⊎ (status ≡ 0) → IsSetUp K libs runtime_class (told t)

  Ran-exit : (t : Operator V C W) → (told t).started ≡ false → Ran (exit 1 t)
  unfolding answer
  Ran-exit t idle (inl on) = ground (arith, idle, on)
  Ran-exit t idle (inr zero) = ground (arith, zero)

  Ran-or_exit :
      (m : Action (Operator V C W)) (k : Call (Operator V C W) ℕ) (s : Operator V C W)
      → (told (m s).1).started ≡ false
      → ((m s).0 ≡ ok tt → Ran (k (m s).1))
      → Ran (or_exit m k s)
  Ran-or_exit m k s idle next =
      outcome_attempt Ran _ _ _ s (λ _ done. next done) (λ e _. Ran-exit _ idle)

  module _ (mgr : Manager Q V C W R K) (k : K)
      (laws : ManagerLaws libs runtime_class mgr k told) where
    complete-Ran :
        (c : Controller (Operator V C W)) (rest : Call (Operator V C W) ℕ) (s : Operator V C W)
        (t : Told (Operator V C W))
        → IsOurs libs runtime_class mgr k c
        → told s ≡ t
        → t.started ≡ false
        → (told (mgr.complete c s).1 ≡ record t { controllers = t.controllers ++ (c ∷ []) }
            → Ran (rest (mgr.complete c s).1))
        → Ran (or_exit (mgr.complete c) rest s)
    complete-Ran c rest s t ours before idle next =
        Ran-or_exit (mgr.complete c) rest s
          (laws.complete_failed c s ∙ ap (λ (u : Told (Operator V C W)). u.started) before ∙ idle)
          (λ done. next (
            laws.complete_ok c s ours done
            ∙ ap
                (λ (u : Told (Operator V C W)). record u {
                  controllers = u.controllers ++ (c ∷ []);
                })
                before))

    healthz-Ran :
        (rest : Call (Operator V C W) ℕ) (s : Operator V C W) (t : Told (Operator V C W))
        → told s ≡ t
        → t.started ≡ false
        → (told (mgr.add_healthz_check "healthz" s).1
              ≡ record t { healthz = t.healthz ++ ("healthz" ∷ []) }
            → Ran (rest (mgr.add_healthz_check "healthz" s).1))
        → Ran (or_exit (mgr.add_healthz_check "healthz") rest s)
    healthz-Ran rest s t before idle next =
        Ran-or_exit (mgr.add_healthz_check "healthz") rest s
          (laws.healthz_failed "healthz" s
            ∙ ap (λ (u : Told (Operator V C W)). u.started) before
            ∙ idle)
          (λ done. next (
            laws.healthz_ok "healthz" s done
            ∙ ap
                (λ (u : Told (Operator V C W)). record u {
                  healthz = u.healthz ++ ("healthz" ∷ []);
                })
                before))

    readyz-Ran :
        (rest : Call (Operator V C W) ℕ) (s : Operator V C W) (t : Told (Operator V C W))
        → told s ≡ t
        → t.started ≡ false
        → (told (mgr.add_readyz_check "readyz" s).1
              ≡ record t { readyz = t.readyz ++ ("readyz" ∷ []) }
            → Ran (rest (mgr.add_readyz_check "readyz" s).1))
        → Ran (or_exit (mgr.add_readyz_check "readyz") rest s)
    readyz-Ran rest s t before idle next =
        Ran-or_exit (mgr.add_readyz_check "readyz") rest s
          (laws.readyz_failed "readyz" s
            ∙ ap (λ (u : Told (Operator V C W)). u.started) before
            ∙ idle)
          (λ done. next (
            laws.readyz_ok "readyz" s done
            ∙ ap (λ (u : Told (Operator V C W)). record u { readyz = u.readyz ++ ("readyz" ∷ []) })
                before))

    -- Once all is set up, whatever starting does.
    start-Ran :
        (s : Operator V C W)
        → told s ≡ record {
          controllers =
              pool_reconciler libs mgr k runtime_class
              ∷ vnode_reconciler libs mgr k runtime_class
              ∷ pod_sync_reconciler libs mgr k runtime_class
              ∷ [];
          healthz = "healthz" ∷ [];
          readyz = "readyz" ∷ [];
          started = false;
        }
        → Ran (or_exit mgr.start (exit 0) s)
    unfolding answer
    start-Ran s before =
        let after = laws.start_keeps s in
        let set_up : IsSetUp K libs runtime_class (told (mgr.start s).1) = record {
          mgr = mgr;
          host_clientset = k;
          controllers =
              ap (λ (u : Told (Operator V C W)). u.controllers) after
              ∙ ap (λ (u : Told (Operator V C W)). u.controllers) before;
          healthz =
              ap (λ (u : Told (Operator V C W)). u.healthz) after
              ∙ ap (λ (u : Told (Operator V C W)). u.healthz) before;
          readyz =
              ap (λ (u : Told (Operator V C W)). u.readyz) after
              ∙ ap (λ (u : Told (Operator V C W)). u.readyz) before;
        } in
        outcome_attempt Ran _ _ _ s (λ _ _ _. set_up) (λ _ _ _. set_up)

    run_manager-Ran :
        ((s : Operator V C W)
          → told (record s { world = record s.world { clients = [] } }) ≡ told s)
        → (s : Operator V C W) → told s ≡ nothing_told
        → Ran (run_manager libs mgr k runtime_class s)
    unfolding run_manager no_clients
    run_manager-Ran clients s blank =
        complete-Ran _ _ _ _ (of_pools refl) (clients s ∙ blank) refl (λ b₁.
          complete-Ran _ _ _ _ (of_vnodes refl) b₁ refl (λ b₂.
            complete-Ran _ _ _ _ (of_pods refl) b₂ refl (λ b₃.
              healthz-Ran _ _ _ b₃ refl (λ b₄. readyz-Ran _ _ _ b₄ refl (λ b₅. start-Ran _ b₅)))))

module _ {Q V C W R K : Type 0} (libs : Libraries Q V C W R) (lib : Startup Q V C W R K)
    (told : Operator V C W → Told (Operator V C W)) where
  start_up-Ran :
      (cfg : Config)
      → StartupLaws libs cfg.default_runtime_class lib told
      → (invalid : Option Error) (s : Operator V C W) → told s ≡ nothing_told
      → Ran K libs told cfg.default_runtime_class (start_up libs lib cfg invalid s)
  unfolding start_up
  start_up-Ran cfg laws (some e) s blank =
      Ran-exit K libs told _ s (ap (λ (t : Told (Operator V C W)). t.started) blank)
  start_up-Ran cfg laws none s blank =
      let Good = Ran K libs told cfg.default_runtime_class in
      let idle : (t : Operator V C W) → told t ≡ nothing_told → Good (exit 1 t) =
        λ t b. Ran-exit K libs told _ t (ap (λ (u : Told (Operator V C W)). u.started) b) in
      let b₁ = laws.get_config_keeps s ∙ blank in
      outcome_attempt Good _ _ _ s
        (λ config _.
          let b₂ = laws.new_manager_keeps config (options_of cfg) _ ∙ b₁ in
          outcome_attempt Good _ _ _ _
            (λ mgr made.
              let b₃ = laws.new_clientset_keeps mgr.config _ ∙ b₂ in
              outcome_attempt Good _ _ _ _
                (λ k _.
                  run_manager-Ran K libs told cfg.default_runtime_class mgr k
                    (laws.managed config (options_of cfg) _ mgr made k) laws.clients_keep _ b₃)
                (λ e _. idle _ b₃))
            (λ e _. idle _ b₂))
        (λ e _. idle _ b₁)

  -- The operator is run where no manager was told anything. If it starts the manager, or exits with status 0,
  -- the manager has the three controllers, of pools, of virtual nodes and of pods, over one manager, one
  -- clientset and the runtime class that the environment names, and the checks healthz and readyz.
  -- A manager keeps what it was told, and only its start starts it.
  pub main-IsSetUp :
      (env : String → String)
      → StartupLaws libs (default_config env).default_runtime_class lib told
      → (s : Operator V C W) → told s ≡ nothing_told
      → ((told (main libs lib env s).1).started ≡ true) ⊎ ((main libs lib env s).0 ≡ 0)
      → IsSetUp K libs (default_config env).default_runtime_class (told (main libs lib env s).1)
  unfolding main
  main-IsSetUp env laws s blank =
      start_up-Ran (default_config env) laws (validate_config (default_config env)) s blank
