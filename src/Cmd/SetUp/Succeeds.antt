-- ===== src/Cmd/SetUp/Succeeds.antt =====
-- cmd/vnode/main.go: the operator comes up where no call of a library fails.
use vnode.Base.{ℕ, ◌≡◌, refl, String, true, inl, Option, none, some}
use vnode.Base.Errors.{Error, ok}
use vnode.Base.Exec.{Call, Exec, Action, answer, attempt}
use vnode.Base.Exec.Outcome.{outcome_attempt}
use vnode.Adapter.Controllers.{Controller}
use vnode.Config.{Config, default_config, validate_config-default_config}
use vnode.Cmd.SetUp.{Told, nothing_told, StartupLaws, IsSetUp}
use vnode.Cmd.SetUp.Reached.{main-IsSetUp}
use vnode.Cmd.{
  Operator, Libraries, Options, Manager, Startup, options_of, exit, or_exit, no_clients,
  run_manager, start_up, main,
}

-- No call on the manager fails, and `Start` starts it.
pub record ManagerSucceeds {Q V C W R K : Type 0} (told : Operator V C W → Told (Operator V C W))
    (mgr : Manager Q V C W R K) : Type 0 where
  pub complete :
      (c : Controller (Operator V C W)) (s : Operator V C W) → (mgr.complete c s).0 ≡ ok tt
  pub healthz : (name : String) (s : Operator V C W) → (mgr.add_healthz_check name s).0 ≡ ok tt
  pub readyz : (name : String) (s : Operator V C W) → (mgr.add_readyz_check name s).0 ≡ ok tt
  pub start : (s : Operator V C W) → (mgr.start s).0 ≡ ok tt
  pub starts : (s : Operator V C W) → (told (mgr.start s).1).started ≡ true

-- No call that the program makes at its start fails.
pub record StartupSucceeds {Q V C W R K : Type 0} (told : Operator V C W → Told (Operator V C W))
    (lib : Startup Q V C W R K) : Type 0 where
  pub get_config : (s : Operator V C W) → (r : R) × ((lib.get_config s).0 ≡ ok r)
  pub new_manager :
      (r : R) (o : Options) (s : Operator V C W)
      → (mgr : Manager Q V C W R K) × ((lib.new_manager r o s).0 ≡ ok mgr)
  pub managed :
      (r : R) (o : Options) (s : Operator V C W) (mgr : Manager Q V C W R K)
      → (lib.new_manager r o s).0 ≡ ok mgr
      → ManagerSucceeds told mgr
  pub new_clientset : (r : R) (s : Operator V C W) → (k : K) × ((lib.new_clientset r s).0 ≡ ok k)

module _ {V C W : Type 0} (told : Operator V C W → Told (Operator V C W)) where
  -- The manager was started, and the program exits with 0.
  abbrev Served : ℕ × Operator V C W → Type 0
  Served (status, t) = (status ≡ 0) × ((told t).started ≡ true)

  -- The program goes on where a call succeeds.
  goes_on :
      {A : Type 0} (m : Exec (Operator V C W) A) (k : A → Call (Operator V C W) ℕ)
      (s : Operator V C W)
      → (a : A) × ((m s).0 ≡ ok a)
      → ((a : A) → (m s).0 ≡ ok a → Served (k a (m s).1))
      → Served (attempt m (λ e. exit 1) k s)
  goes_on m k s (a, done) next =
      outcome_attempt Served m (λ e. exit 1) k s next (λ e bad. cc (done, bad))

  or_exit-Served :
      (m : Action (Operator V C W)) (k : Call (Operator V C W) ℕ) (s : Operator V C W)
      → (m s).0 ≡ ok tt
      → Served (k (m s).1)
      → Served (or_exit m k s)
  or_exit-Served m k s done next = goes_on m (λ _. k) s (tt, done) (λ _ _. next)

module _ {Q V C W R K : Type 0} (libs : Libraries Q V C W R) (lib : Startup Q V C W R K)
    (told : Operator V C W → Told (Operator V C W)) where
  run_manager-Served :
      (mgr : Manager Q V C W R K)
      → ManagerSucceeds told mgr
      → (k : K) (runtime_class : String) (s : Operator V C W)
      → Served told (run_manager libs mgr k runtime_class s)
  unfolding run_manager no_clients answer
  run_manager-Served mgr m k runtime_class s = or_exit-Served told _ _ _ (m.complete _ _) (
      or_exit-Served told _ _ _ (m.complete _ _) (
        or_exit-Served told _ _ _ (m.complete _ _) (
          or_exit-Served told _ _ _ (m.healthz _ _) (
            or_exit-Served told _ _ _ (m.readyz _ _)
              (or_exit-Served told _ _ _ (m.start _) (refl, m.starts _))))))

  start_up-Served :
      StartupSucceeds told lib
      → (cfg : Config) (invalid : Option Error) (s : Operator V C W) → invalid ≡ none
      → Served told (start_up libs lib cfg invalid s)
  unfolding start_up
  start_up-Served l cfg (some e) s valid = cc (valid)
  start_up-Served l cfg none s valid = goes_on told _ _ s (l.get_config s) (λ config _.
      let t = (lib.get_config s).1 in
      goes_on told _ _ t (l.new_manager config (options_of cfg) t) (λ mgr made.
        let u = (lib.new_manager config (options_of cfg) t).1 in
        goes_on told _ _ u (l.new_clientset mgr.config u) (λ k _.
          run_manager-Served mgr (l.managed config (options_of cfg) t mgr made) k
            cfg.default_runtime_class (lib.new_clientset mgr.config u).1)))

  -- Whatever the environment, the configuration made from it is valid. So where a manager has been told
  -- nothing, the libraries keep their documented behaviour and none of their calls fails, the program
  -- exits with status 0, the manager was started, and it has the three controllers, over one manager and
  -- clientset, and both checks.
  pub main-succeeds :
      (env : String → String)
      → StartupLaws libs (default_config env).default_runtime_class lib told
      → StartupSucceeds told lib
      → (s : Operator V C W) → told s ≡ nothing_told
      → let (status, t) = main libs lib env s in
        (status ≡ 0)
        × ((told t).started ≡ true)
        × IsSetUp K libs (default_config env).default_runtime_class (told t)
  unfolding main
  main-succeeds env laws l s blank =
      let (done, started) =
        start_up-Served l (default_config env) _ s (validate_config-default_config env) in
      (done, started, main-IsSetUp libs lib told env laws s blank (inl started))
