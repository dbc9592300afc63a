-- ===== src/Cmd/SetUp.antt =====
-- What the manager of the operator is told, and what is relied on of it.
pub mod Reached
pub mod Succeeds
use vnode.Base.{
  ℕ, ◌≡◌, ◌⊎◌, inl, inr, refl, sym, ap, ◌∙◌, String, Bool, true, false, Option, none, some, List,
  [], ◌∷◌, ◌++◌, arith,
}
use vnode.Base.Errors.{Error, Result, ok, err}
use vnode.Base.Exec.{Call, Action, answer, attempt}
use vnode.Base.Exec.Outcome.{outcome_attempt}
use vnode.Base.Map.{Map}
use vnode.Adapter.Controllers.{Controller}
use vnode.Config.{Config, default_config, validate_config}
use vnode.Cmd.{
  Operator, Libraries, Options, Manager, Startup, options_of, pool_reconciler, vnode_reconciler,
  pod_sync_reconciler, no_clients, exit, or_exit, run_manager, start_up, main,
}

-- What a manager was told: the controllers and the checks that it has, and whether it was started.
pub record Told (S : Type 0) : Type 0 where
  pub controllers : List (Controller S)
  pub healthz : List String
  pub readyz : List String
  pub started : Bool

abbrev pub nothing_told : {S : Type 0} → Told S
nothing_told = record { controllers = []; healthz = []; readyz = []; started = false }

module _ {Q V C W R K : Type 0} (libs : Libraries Q V C W R) (runtime_class : String) where
  -- The controllers of the operator.
  pub data IsOurs (mgr : Manager Q V C W R K) (k : K) (c : Controller (Operator V C W))
      : Type 0 where
    of_pools : c ≡ pool_reconciler libs mgr k runtime_class → IsOurs mgr k c
    of_vnodes : c ≡ vnode_reconciler libs mgr k runtime_class → IsOurs mgr k c
    of_pods : c ≡ pod_sync_reconciler libs mgr k runtime_class → IsOurs mgr k c

  -- Documented behaviour of a manager: what succeeds is added to what it was told, and only `Start` starts it.
  pub record ManagerLaws (mgr : Manager Q V C W R K) (k : K)
      (told : Operator V C W → Told (Operator V C W)) : Type 0 where
    pub complete_ok :
        (c : Controller (Operator V C W)) (s : Operator V C W)
        → IsOurs mgr k c
        → (mgr.complete c s).0 ≡ ok tt
        → told (mgr.complete c s).1
          ≡ record (told s) { controllers = (told s).controllers ++ (c ∷ []) }
    pub complete_failed :
        (c : Controller (Operator V C W)) (s : Operator V C W)
        → (told (mgr.complete c s).1).started ≡ (told s).started
    pub healthz_ok :
        (name : String) (s : Operator V C W)
        → (mgr.add_healthz_check name s).0 ≡ ok tt
        → told (mgr.add_healthz_check name s).1
          ≡ record (told s) { healthz = (told s).healthz ++ (name ∷ []) }
    pub healthz_failed :
        (name : String) (s : Operator V C W)
        → (told (mgr.add_healthz_check name s).1).started ≡ (told s).started
    pub readyz_ok :
        (name : String) (s : Operator V C W)
        → (mgr.add_readyz_check name s).0 ≡ ok tt
        → told (mgr.add_readyz_check name s).1
          ≡ record (told s) { readyz = (told s).readyz ++ (name ∷ []) }
    pub readyz_failed :
        (name : String) (s : Operator V C W)
        → (told (mgr.add_readyz_check name s).1).started ≡ (told s).started
    pub start_keeps :
        (s : Operator V C W)
        → told (mgr.start s).1 ≡ record (told s) { started = (told (mgr.start s).1).started }

  -- Nothing else tells a manager anything, and the clients that the operator keeps are its own.
  pub record StartupLaws (lib : Startup Q V C W R K) (told : Operator V C W → Told (Operator V C W))
      : Type 0 where
    pub get_config_keeps : (s : Operator V C W) → told (lib.get_config s).1 ≡ told s
    pub new_manager_keeps :
        (r : R) (o : Options) (s : Operator V C W) → told (lib.new_manager r o s).1 ≡ told s
    pub new_clientset_keeps : (r : R) (s : Operator V C W) → told (lib.new_clientset r s).1 ≡ told s
    pub clients_keep :
        (s : Operator V C W) → told (record s { world = record s.world { clients = [] } }) ≡ told s
    pub managed :
        (r : R) (o : Options) (s : Operator V C W) (mgr : Manager Q V C W R K)
        → (lib.new_manager r o s).0 ≡ ok mgr
        → (k : K) → ManagerLaws mgr k told

-- The three reconcilers are set up over one manager and one clientset, and so are the two checks.
pub record IsSetUp {Q V C W R : Type 0} (K : Type 0) (libs : Libraries Q V C W R)
    (runtime_class : String) (t : Told (Operator V C W)) : Type 0 where
  pub mgr : Manager Q V C W R K
  pub host_clientset : K
  pub controllers :
      t.controllers
      ≡ pool_reconciler libs mgr host_clientset runtime_class
        ∷ vnode_reconciler libs mgr host_clientset runtime_class
        ∷ pod_sync_reconciler libs mgr host_clientset runtime_class
        ∷ []
  pub healthz : t.healthz ≡ "healthz" ∷ []
  pub readyz : t.readyz ≡ "readyz" ∷ []
