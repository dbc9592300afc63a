-- ===== src/Service/Pool.antt =====
-- internal/domain/service/pool_service.go: a pool is brought to its number of nodes.
pub mod Store
pub mod Convergence
pub mod Outcome
pub mod Pending
pub mod Keeps
use vnode.Base.{
  ℕ, zero, suc, String, ◌<>◌, Option, none, some, List, [], ◌∷◌, ◌++◌, length, drop_last, ◌&&◌, not,
  ◌==◌, if◌then◌else◌,
}
use vnode.Base.Decimal.{show_ℕ}
use vnode.Base.Errors.{Error, Result, ok, err, wrap}
use vnode.Base.Exec.{Call, Reply, answer, attempt}
use vnode.Base.Int.{ℤ, pos, pos_part, wrap32, eqb_ℤ}
use vnode.Model.Pool.{VNodePool, pool_failed, pool_ready, pool_scaling, desired_scale_actions}
use vnode.Model.Node.{VNode, node_not_ready, node_terminating}
use vnode.Ports.{NodeRepository, NodeLifecycle, PoolManager}

-- The variables of `Reconcile` after one of its loops.
pub record Scaled : Type 0 where
  pub pool : VNodePool
  pub working : List VNode
  pub error : Option Error

abbrev pub last? : List VNode → Option VNode
last? [] = none
last? (n ∷ []) = some n
last? (n ∷ m ∷ ns) = last? (m ∷ ns)

abbrev pub failed : VNodePool → VNodePool
failed pool = record pool { phase = pool_failed }

-- The number of nodes that the last loop counts as ready.
unfoldable pub ready_count : List VNode → ℕ
ready_count [] = 0
ready_count (n ∷ ns) =
    let rest = ready_count ns in
    if not (n.phase == node_not_ready) && not (n.phase == node_terminating) then suc rest else rest

unfoldable pub finish : VNodePool → List VNode → VNodePool
finish pool working =
    let ready = wrap32 (pos (ready_count working)) in
    record pool {
      ready_nodes = ready;
      phase = if eqb_ℤ ready pool.node_count then pool_ready else pool_scaling;
    }

module _ {S : Type 0} (repo : NodeRepository S) (nodes : NodeLifecycle S) where
  -- The loop that provisions, with the rounds left and the rounds made.
  unfoldable pub scale_up : ℕ → ℕ → VNodePool → List VNode → Call S Scaled
  scale_up zero i pool working s = (record { pool = pool; working = working; error = none }, s)
  scale_up (suc k) i pool working s =
      let (r, s') = nodes.provision pool s in
      elim r.error [
        | some e ↦ (
          record {
            pool = failed pool;
            working = working;
            error =
                some (wrap ("provisioning node " <> (show_ℕ i <> (" for pool " <> pool.name))) e);
          },
          s',
        )
        | none ↦
            scale_up k (suc i) (record pool { nodes = pool.nodes ++ (r.value.name ∷ []) })
              (working ++ (r.value ∷ [])) s'
      ]

  -- The loop that deprovisions, from the end of the list.
  unfoldable pub scale_down : ℕ → VNodePool → List VNode → Call S Scaled
  scale_down zero pool working s = (record { pool = pool; working = working; error = none }, s)
  scale_down (suc k) pool working s = elim (last? working) [
    | none ↦ (record { pool = pool; working = working; error = none }, s)
    | some n ↦
        let (r, s') = nodes.deprovision n s in
        elim r [
          | err e ↦ (
            record {
              pool = failed pool;
              working = working;
              error = some (wrap ("deprovisioning node " <> n.name) e);
            },
            s',
          )
          | ok _ ↦ scale_down k pool (drop_last working) s'
        ]
  ]

  abbrev pub stopped : Scaled → Error → Reply VNodePool
  stopped r e = record { value = r.pool; error = some e }

  -- `Reconcile` once the nodes of the pool are listed.
  unfoldable pub scale : VNodePool → List VNode → Call S (Reply VNodePool)
  scale pool existing s =
      let (to_add, to_remove) = desired_scale_actions pool (wrap32 (pos (length existing))) in
      let (up, s₁) = scale_up (pos_part to_add) 0 pool existing s in
      elim up.error [
        | some e ↦ (stopped up e, s₁)
        | none ↦
            let (down, s₂) = scale_down (pos_part to_remove) up.pool up.working s₁ in
            elim down.error [
              | some e ↦ (stopped down e, s₂)
              | none ↦ (record { value = finish down.pool down.working; error = none }, s₂)
            ]
      ]

  unfoldable pub reconcile : VNodePool → Call S (Reply VNodePool)
  reconcile pool =
      attempt (repo.list_by_pool pool.namespace pool.name)
        (λ e.
          answer (record {
            value = pool;
            error = some (wrap ("listing nodes for pool " <> pool.name) e);
          }))
        (λ existing. scale pool existing)

  abbrev pub pool_manager : PoolManager S
  pool_manager = record { reconcile = reconcile }
