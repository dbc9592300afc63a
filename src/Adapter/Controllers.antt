-- ===== src/Adapter/Controllers.antt =====
-- internal/adapter/inbound/reconciler: `SetupWithManager` of the three reconcilers. The builder of controllers is
-- that of a library: a controller is what it is given, and `Complete` a parameter.
use vnode.Base.{ℕ, String, Bool, true, false, Option, none, some, List, [], ◌∷◌}
use vnode.Base.Exec.{Exec}
use vnode.Api.{VNodeCr}
use vnode.Adapter.PoolReconciler.{VNodeEvent, vnode_to_pool, phase_changed}

-- The kinds of resources that `For` and `Watches` name.
pub data ResourceKind : Type 0 where
  pool_kind vnode_kind : ResourceKind

-- A further kind whose events are looked at: which of them, and whose reconciliation they ask for.
pub record Watch : Type 0 where
  pub kind : ResourceKind
  pub requests : VNodeCr → Option (String × String)
  pub predicate : VNodeEvent → Bool

-- What `ctrl.NewControllerManagedBy` is told. A controller that is not named is named by the library after
-- its kind. `generation_changed` says that the library's predicate of that name filters its events.
pub record Controller (S : Type 0) : Type 0 where
  pub named : Option String
  pub kind : ResourceKind
  pub generation_changed : Bool
  pub watches : List Watch
  pub reconcile : String → String → Exec S ℕ

-- `vnodePoolPredicates`
abbrev pub vnode_pool_predicates : Bool
vnode_pool_predicates = true

module _ {S : Type 0} where
  abbrev pub pool_controller : (String → String → Exec S ℕ) → Controller S
  pool_controller reconcile = record {
    named = none;
    kind = pool_kind;
    generation_changed = vnode_pool_predicates;
    watches =
        record { kind = vnode_kind; requests = vnode_to_pool; predicate = phase_changed } ∷ [];
    reconcile = reconcile;
  }

  abbrev pub vnode_controller : (String → String → Exec S ℕ) → Controller S
  vnode_controller reconcile = record {
    named = none;
    kind = vnode_kind;
    generation_changed = false;
    watches = [];
    reconcile = reconcile;
  }

  abbrev pub pod_sync_controller : (String → String → Exec S ℕ) → Controller S
  pod_sync_controller reconcile = record {
    named = some "vnodepool-podsync";
    kind = pool_kind;
    generation_changed = false;
    watches = [];
    reconcile = reconcile;
  }
