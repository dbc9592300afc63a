-- ===== src/Cmd/Turns.antt =====
-- cmd/vnode/main.go: what happens once the operator runs, one reconciliation after the other.
use vnode.Base.{◌≡◌, String}
use vnode.Ports.Laws.{Seen, SameView}
use vnode.Adapter.TenantClients.Host.{on_host}
use vnode.Cmd.{Operator, Libraries, Manager, pool_reconciler, vnode_reconciler, pod_sync_reconciler}

module _ {A Q V C W R K : Type 0} (find : Seen A W) (libs : Libraries Q V C W R)
    (mgr : Manager Q V C W R K) (k : K) (runtime_class : String) where
  -- A reconciliation by one of the three controllers, or a change by anyone else that leaves what is seen.
  pub data Turn (s t : Operator V C W) : Type 0 where
    pool_turn :
        (ns name : String)
        → t ≡ ((pool_reconciler libs mgr k runtime_class).reconcile ns name s).1
        → Turn s t
    vnode_turn :
        (ns name : String)
        → t ≡ ((vnode_reconciler libs mgr k runtime_class).reconcile ns name s).1
        → Turn s t
    pod_turn :
        (ns name : String)
        → t ≡ ((pod_sync_reconciler libs mgr k runtime_class).reconcile ns name s).1
        → Turn s t
    other_turn : SameView (on_host find) s.world t.world → Turn s t

  pub data Turns (s : Operator V C W) : Operator V C W → Type 0 where
    none_yet : Turns s s
    then_one : {t u : Operator V C W} → Turns s t → Turn t u → Turns s u

  pub joined : {s t u : Operator V C W} → Turns s t → Turns t u → Turns s u
  joined first none_yet = first
  joined first (then_one more turn) = then_one (joined first more) turn
