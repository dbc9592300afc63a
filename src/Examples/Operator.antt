-- ===== src/Examples/Operator.antt =====
-- The operator of cmd/vnode/main.go over libraries in memory, started and run at concrete data.
use mathlib.Core.Path.{subst}
use vnode.Base.{
  ℕ, zero, suc, ◌+◌, ◌≡◌, refl, sym, ap, ◌∙◌, inr, String, Bool, true, false, ◌==◌, ◌&&◌, Option,
  none, some, List, [], ◌∷◌, ◌++◌, if◌then◌else◌,
}
use vnode.Base.Errors.{Result, ok, err, leaf, not_found}
use vnode.Base.Exec.{Call}
use vnode.Observability.{CounterLib}
use vnode.Kube.{HostApi}
use vnode.Service.Node.Coherence.{AllCoherent}
use vnode.Api.{PoolApi}
use vnode.Adapter.TenantClients.Host.{on_host}
use vnode.Adapter.Controllers.{Controller, ResourceKind, pool_kind, vnode_kind}
use vnode.Config.{default_config, env_or_default}
use vnode.Cmd.{
  Operator, Libraries, Manager, Startup, pool_reconciler, vnode_reconciler, pod_sync_reconciler,
  main,
}
use vnode.Cmd.SetUp.{Told, IsOurs, of_pools, of_vnodes, of_pods, ManagerLaws, StartupLaws, IsSetUp}
use vnode.Cmd.SetUp.Reached.{main-IsSetUp}
use vnode.Cmd.SetUp.Succeeds.{ManagerSucceeds, StartupSucceeds, main-succeeds}
use vnode.Cmd.Laws.{ClusterLaws}
use vnode.Cmd.Turns.{none_yet, then_one, pool_turn, vnode_turn, pod_turn}
use vnode.Cmd.Coherence.{Turns-AllCoherent}
use vnode.Examples.Resources.{
  Resources, api, find, api-VNodeApiLaws, api-NeverCancelled, retry_on, retry_on-Retries,
}
use vnode.Examples.Reconcilers.{live}
use vnode.Examples.Tenants.{quantities, cluster, cluster-Elsewhere, noon, nothing}

-- What the libraries keep in memory: the counters, and what the manager was told. A controller is noted by a
-- number.
record Memory : Type 0 where
  values : String → String → ℕ
  noted : List ℕ
  healthz : List String
  readyz : List String
  started : Bool

abbrev S : Type 0
S = Operator Memory String Resources

abbrev counters : CounterLib Memory
counters = record {
  add = λ counter pool n m. record m {
    values = λ c l. m.values c l + (if (counter == c) && (pool == l) then n else 0);
  };
}

abbrev libs : Libraries String Memory String Resources String
libs = record {
  quantities = quantities;
  version = "v1";
  now = noon;
  retry = retry_on 4;
  retry_host = retry_on 4;
  finalizers = record { contains = λ fs f. true; add = λ fs f. fs; remove = λ fs f. [] };
  counters = counters;
  clusters = cluster;
  rest_config = λ text. ok text;
  client_for = λ config. ok config;
}

abbrev pools : PoolApi Resources
pools = record {
  get = λ ns name w. (ok live, w);
  update = λ cr w. (ok cr, w);
  update_status = λ cr w. (ok tt, w);
  patch_status = λ base cr w. (ok tt, w);
  list = λ w. (ok [], w);
}

-- A host without pods.
abbrev pub empty_host : {W : Type 0} → HostApi String W
empty_host = record {
  create_pod = λ p w. (ok tt, w);
  get_pod = λ ns name w. (err (leaf not_found name), w);
  update_pod = λ p w. (ok tt, w);
  delete_pod = λ ns name w. (ok tt, w);
  list_pods = λ ns labels w. (ok [], w);
  get_config_map = λ ns name w. (err (leaf not_found name), w);
  create_config_map = λ ns name cm w. (ok tt, w);
  update_config_map = λ ns name cm w. (ok tt, w);
  get_secret = λ ns name w. (ok (record { content = ("config", name) ∷ []; labels = [] }), w);
  create_secret = λ ns name secret w. (ok tt, w);
  update_secret = λ ns name secret w. (ok tt, w);
}

abbrev number : Option String → ResourceKind → ℕ
number (some name) kind = 2
number none pool_kind = 0
number none vnode_kind = 1

abbrev with_memory : (Memory → Memory) → Call S (Unit {0})
with_memory f s = (tt, record s { metrics = f s.metrics })

abbrev mgr : Manager String Memory String Resources String (Unit {0})
mgr = record {
  config = "cfg";
  pools = pools;
  vnodes = api false;
  host = λ k. empty_host;
  event_recorder = λ name. record { eventf = λ cr type reason action note w. (tt, w) };
  complete = λ c s. (
    ok tt,
    record s {
      metrics = record s.metrics { noted = s.metrics.noted ++ (number c.named c.kind ∷ []) };
    },
  );
  add_healthz_check = λ name s. (
    ok tt,
    record s { metrics = record s.metrics { healthz = s.metrics.healthz ++ (name ∷ []) } },
  );
  add_readyz_check = λ name s.
      (ok tt, record s { metrics = record s.metrics { readyz = s.metrics.readyz ++ (name ∷ []) } });
  start = λ s. (ok tt, record s { metrics = record s.metrics { started = true } });
}

abbrev lib : Startup String Memory String Resources String (Unit {0})
lib = record {
  get_config = λ s. (ok "cfg", s);
  new_manager = λ r o s. (ok mgr, s);
  new_clientset = λ r s. (ok tt, s);
}

abbrev controller : ℕ → Controller S
controller zero = pool_reconciler libs mgr tt ""
controller (suc zero) = vnode_reconciler libs mgr tt ""
controller (suc (suc n)) = pod_sync_reconciler libs mgr tt ""

abbrev controllers : List ℕ → List (Controller S)
controllers [] = []
controllers (n ∷ ns) = controller n ∷ controllers ns

abbrev told : S → Told S
told s = record {
  controllers = controllers s.metrics.noted;
  healthz = s.metrics.healthz;
  readyz = s.metrics.readyz;
  started = s.metrics.started;
}

controllers-append :
    (ns : List ℕ) (n : ℕ) → controllers (ns ++ (n ∷ [])) ≡ controllers ns ++ (controller n ∷ [])
controllers-append [] n = refl
controllers-append (m ∷ ns) n = ap (λ cs. controller m ∷ cs) (controllers-append ns n)

controller-number :
    (c : Controller S) → IsOurs libs "" mgr tt c → controller (number c.named c.kind) ≡ c
controller-number c (of_pools e) =
    ap (λ (d : Controller S). controller (number d.named d.kind)) e ∙ sym e
controller-number c (of_vnodes e) =
    ap (λ (d : Controller S). controller (number d.named d.kind)) e ∙ sym e
controller-number c (of_pods e) =
    ap (λ (d : Controller S). controller (number d.named d.kind)) e ∙ sym e

noting :
    (s : S) (c : Controller S)
    → IsOurs libs "" mgr tt c
    → told (mgr.complete c s).1 ≡ record (told s) { controllers = (told s).controllers ++ (c ∷ []) }
noting s c ours =
    ap (λ cs. record (told s) { controllers = cs })
      (controllers-append s.metrics.noted (number c.named c.kind)
        ∙ ap (λ (d : Controller S). controllers s.metrics.noted ++ (d ∷ []))
            (controller-number c ours))

abbrev made_manager :
    Result (Manager String Memory String Resources String (Unit {0}))
    → Manager String Memory String Resources String (Unit {0})
made_manager (ok m) = m
made_manager (err e) = mgr

mgr-ManagerLaws : ManagerLaws libs "" mgr tt told
mgr-ManagerLaws = record {
  complete_ok = λ c s ours done. noting s c ours;
  complete_failed = λ c s. refl;
  healthz_ok = λ name s done. refl;
  healthz_failed = λ name s. refl;
  readyz_ok = λ name s done. refl;
  readyz_failed = λ name s. refl;
  start_keeps = λ s. refl;
}

lib-StartupLaws : StartupLaws libs "" lib told
lib-StartupLaws = record {
  get_config_keeps = λ s. refl;
  new_manager_keeps = λ r o s. refl;
  new_clientset_keeps = λ r s. refl;
  clients_keep = λ s. refl;
  managed = λ r o s other made k.
      subst (λ m. ManagerLaws libs "" m tt told) (ap made_manager made) mgr-ManagerLaws;
}

-- Nothing is set in the environment.
abbrev env : String → String
env name = ""

abbrev fresh : S
fresh = record {
  metrics = record { values = λ c l. 0; noted = []; healthz = []; readyz = []; started = false };
  world = record { clients = []; world = nothing };
}

mgr-ManagerSucceeds : ManagerSucceeds told mgr
mgr-ManagerSucceeds = record {
  complete = λ c s. refl;
  healthz = λ name s. refl;
  readyz = λ name s. refl;
  start = λ s. refl;
  starts = λ s. refl;
}

lib-StartupSucceeds : StartupSucceeds told lib
lib-StartupSucceeds = record {
  get_config = λ s. ("cfg", refl);
  new_manager = λ r o s. (mgr, refl);
  new_clientset = λ r s. (tt, refl);
  managed =
      λ r o s other made. subst (ManagerSucceeds told) (ap made_manager made) mgr-ManagerSucceeds;
}

main-succeeds_example :
    ((main libs lib env fresh).0 ≡ 0)
    × ((told (main libs lib env fresh).1).started ≡ true)
    × IsSetUp (Unit {0}) libs "" (told (main libs lib env fresh).1)
unfolding default_config env_or_default
main-succeeds_example =
    main-succeeds libs lib told env lib-StartupLaws lib-StartupSucceeds fresh refl

comes_up : (main libs lib env fresh).0 ≡ 0
unfolding default_config env_or_default
comes_up = (main-succeeds libs lib told env lib-StartupLaws lib-StartupSucceeds fresh refl).0

main-IsSetUp_example : IsSetUp (Unit {0}) libs "" (told (main libs lib env fresh).1)
unfolding default_config env_or_default
main-IsSetUp_example = main-IsSetUp libs lib told env lib-StartupLaws fresh refl (inr comes_up)

mgr-ClusterLaws : ClusterLaws find libs mgr tt
mgr-ClusterLaws = record {
  vnodes = api-VNodeApiLaws false;
  live = api-NeverCancelled;
  retries = retry_on-Retries;
  retries_host = retry_on-Retries;
  clock = λ w ns k. refl;
  nodes_elsewhere = cluster-Elsewhere;
  pods_elsewhere = λ c. record {
    list_pods = λ w ns k. refl;
    get_pod = λ j name w ns k. refl;
    update_pod_status = λ j p w ns k. refl;
    get_config_map = λ j name w ns k. refl;
    get_secret = λ j name w ns k. refl;
  };
  update_pool = λ cr w ns k. refl;
  host = record {
    get_pool = λ j name w ns k. refl;
    patch_status = λ base cr w ns k. refl;
    create_pod = λ p w ns k. refl;
    get_pod = λ j name w ns k. refl;
    delete_pod = λ j name w ns k. refl;
    list_pods = λ j labels w ns k. refl;
    get_config_map = λ j name w ns k. refl;
    create_config_map = λ j name cm w ns k. refl;
    update_config_map = λ j name cm w ns k. refl;
    get_secret = λ j name w ns k. refl;
    create_secret = λ j name secret w ns k. refl;
    update_secret = λ j name secret w ns k. refl;
    eventf = λ cr type reason action note w ns k. refl;
  };
}

fresh-AllCoherent : AllCoherent (on_host find) fresh.world
fresh-AllCoherent = record { at = λ ns name n h. cc }

-- The pool is reconciled, then its first node and its pods.
abbrev with_node : S
with_node = ((pool_reconciler libs mgr tt "").reconcile "ns" "p" fresh).1

abbrev node_synced : S
node_synced = ((vnode_reconciler libs mgr tt "").reconcile "ns" "vnode-p-1" with_node).1

abbrev pods_synced : S
pods_synced = ((pod_sync_reconciler libs mgr tt "").reconcile "ns" "p" node_synced).1

Turns-AllCoherent_example : AllCoherent (on_host find) pods_synced.world
Turns-AllCoherent_example = Turns-AllCoherent libs mgr tt "" mgr-ClusterLaws fresh-AllCoherent (
    then_one
      (then_one (then_one none_yet (pool_turn "ns" "p" refl)) (vnode_turn "ns" "vnode-p-1" refl))
      (pod_turn "ns" "p" refl))
