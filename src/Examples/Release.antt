-- ===== src/Examples/Release.antt =====
-- The operator of cmd/vnode/main.go over pools in memory, one of which is being deleted.
use vnode.Base.{◌≡◌, ◌⊎◌, refl, String, true, []}
use vnode.Base.Errors.{ok}
use vnode.Cmd.{Operator, Libraries, Manager, pool_reconciler, vnode_reconciler, pod_sync_reconciler}
use vnode.Cmd.Laws.{FinalizerHostLaws}
use vnode.Cmd.Turns.{none_yet, then_one, pool_turn, vnode_turn, pod_turn}
use vnode.Cmd.Release.{ReleasedBetween, Turns-ReleasedBetween}
use vnode.Examples.Resources.{retry_on, retry_on-Retries}
use vnode.Examples.Reconcilers.{
  Pools, pools, no_vnodes, finalizers, held, one_pool, pools-FinalizerLaws,
}
use vnode.Examples.Tenants.{quantities, cluster, cluster-Elsewhere, noon}
use vnode.Examples.Operator.{empty_host}

abbrev S : Type 0
S = Operator (Unit {0}) String Pools

abbrev libs : Libraries String (Unit {0}) String Pools String
libs = record {
  quantities = quantities;
  version = "v1";
  now = noon;
  retry = retry_on 4;
  retry_host = retry_on 4;
  finalizers = finalizers;
  counters = record { add = λ counter pool n m. m };
  clusters = cluster;
  rest_config = λ text. ok text;
  client_for = λ config. ok config;
}

abbrev mgr : Manager String (Unit {0}) String Pools String (Unit {0})
mgr = record {
  config = "cfg";
  pools = pools;
  vnodes = no_vnodes;
  host = λ k. empty_host;
  event_recorder = λ name. record { eventf = λ cr type reason action note w. (tt, w) };
  complete = λ c s. (ok tt, s);
  add_healthz_check = λ name s. (ok tt, s);
  add_readyz_check = λ name s. (ok tt, s);
  start = λ s. (ok tt, s);
}

mgr-FinalizerHostLaws : FinalizerHostLaws held libs mgr tt
mgr-FinalizerHostLaws = record {
  contains-add = pools-FinalizerLaws.contains-add;
  get_named = pools-FinalizerLaws.get_named;
  update_changes = pools-FinalizerLaws.update_changes;
  vnodes = record {
    get = λ j name w ns k. refl;
    create = λ cr w ns k. refl;
    update = λ cr w ns k. refl;
    update_status = λ cr w ns k. refl;
    delete = λ j name w ns k. refl;
    list = λ j labels w ns k. refl;
  };
  retries = retry_on-Retries;
  retries_host = retry_on-Retries;
  clock = λ w ns k. refl;
  nodes_elsewhere = cluster-Elsewhere;
  pods_elsewhere = λ c. record {
    list_pods = λ w ns k. refl;
    get_pod = λ j name w ns k. refl;
    update_pod_status = λ j p w ns k. refl;
    get_config_map = λ j name w ns k. refl;
    get_secret = λ j name w ns k. refl;
  };
  host = record {
    get_pool = λ j name w ns k. refl;
    patch_status = pools-FinalizerLaws.patch_keeps;
    create_pod = λ p w ns k. refl;
    get_pod = λ j name w ns k. refl;
    delete_pod = λ j name w ns k. refl;
    list_pods = λ j labels w ns k. refl;
    get_config_map = λ j name w ns k. refl;
    create_config_map = λ j name cm w ns k. refl;
    update_config_map = λ j name cm w ns k. refl;
    get_secret = λ j name w ns k. refl;
    create_secret = λ j name secret w ns k. refl;
    update_secret = λ j name secret w ns k. refl;
    eventf = λ cr type reason action note w ns k. refl;
  };
}

abbrev start : S
start = record { metrics = tt; world = record { clients = []; world = one_pool } }

-- The pods of the pool are reconciled, then a node that is gone, then the pool, which loses its finalizer.
abbrev pods_synced : S
pods_synced = ((pod_sync_reconciler libs mgr tt "").reconcile "ns" "p" start).1

abbrev node_synced : S
node_synced = ((vnode_reconciler libs mgr tt "").reconcile "ns" "vnode-p-1" pods_synced).1

abbrev pool_synced : S
pool_synced = ((pool_reconciler libs mgr tt "").reconcile "ns" "p" node_synced).1

Turns-ReleasedBetween_example :
    (held pool_synced.world.world "ns" "p" ≡ true)
    ⊎ ReleasedBetween held libs mgr tt "" "ns" "p" start pool_synced
Turns-ReleasedBetween_example =
    Turns-ReleasedBetween libs mgr tt "" mgr-FinalizerHostLaws "ns" "p" refl (
      then_one
        (then_one (then_one none_yet (pod_turn "ns" "p" refl)) (vnode_turn "ns" "vnode-p-1" refl))
        (pool_turn "ns" "p" refl))
