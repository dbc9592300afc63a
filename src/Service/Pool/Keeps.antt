-- ===== src/Service/Pool/Keeps.antt =====
-- What `PoolService.Reconcile` keeps: whatever each call on nodes keeps that it makes.
use vnode.Base.{ℕ, zero, suc, String, List, [], ◌∷◌, ◌++◌, length, drop_last, arith}
use vnode.Base.Int.{pos, pos_part, wrap32}
use vnode.Base.Exec.Keeps.{Keeps, Keeps-attempt, Keeps-answer}
use vnode.Model.Pool.{VNodePool, desired_scale_actions}
use vnode.Model.Node.{VNode}
use vnode.Ports.{NodeRepository, NodeLifecycle}
use vnode.Service.Pool.Convergence.{last?-cons}
use vnode.Service.Pool.{scale_up, scale_down, scale, reconcile}

-- Each call on the life of a node keeps the invariant.
pub record LifecycleKeeps {S : Type 0} (Inv : S → Type 0) (nodes : NodeLifecycle S) : Type 0 where
  pub provision : (pool : VNodePool) → Keeps Inv (nodes.provision pool)
  pub deprovision : (n : VNode) → Keeps Inv (nodes.deprovision n)
  pub update_status : (n : VNode) → Keeps Inv (nodes.update_status n)

module _ {S : Type 0} {Inv : S → Type 0} (repo : NodeRepository S) {nodes : NodeLifecycle S}
    (k : LifecycleKeeps Inv nodes) where
  kept_up :
      (rounds i : ℕ) (pool : VNodePool) (working : List VNode) (s : S)
      → Inv s
      → Inv (scale_up repo nodes rounds i pool working s).1
  unfolding scale_up
  kept_up zero i pool working s h = h
  kept_up (suc rounds) i pool working s h =
      let (r, s') = nodes.provision pool s in
      let h' : Inv s' = (k.provision pool).at s h in
      ground (
        arith,
        h',
        kept_up rounds (suc i) (record pool { nodes = pool.nodes ++ (r.value.name ∷ []) })
            (working ++ (r.value ∷ [])) s' h',
      )

  kept_down :
      (rounds : ℕ) (pool : VNodePool) (working : List VNode) (s : S)
      → Inv s
      → Inv (scale_down repo nodes rounds pool working s).1
  unfolding scale_down
  kept_down zero pool working s h = h
  kept_down (suc rounds) pool [] s h = h
  kept_down (suc rounds) pool (n ∷ ns) s h =
      let (m, last) = last?-cons n ns in
      let s' = (nodes.deprovision m s).1 in
      let h' : Inv s' = (k.deprovision m).at s h in
      ground (arith, last, h', kept_down rounds pool (drop_last (n ∷ ns)) s' h')

  scale-Keeps :
      (pool : VNodePool) (existing : List VNode) → Keeps Inv (scale repo nodes pool existing)
  unfolding scale
  scale-Keeps pool existing = record {
    at = λ s h.
        let a = desired_scale_actions pool (wrap32 (pos (length existing))) in
        let (up, s₁) = scale_up repo nodes (pos_part a.0) 0 pool existing s in
        let h₁ : Inv s₁ = kept_up (pos_part a.0) 0 pool existing s h in
        let (down, s₂) = scale_down repo nodes (pos_part a.1) up.pool up.working s₁ in
        let h₂ : Inv s₂ = kept_down (pos_part a.1) up.pool up.working s₁ h₁ in
        ground (arith, h₁, h₂);
  }

  -- What each call keeps that a reconciliation of a pool makes on its nodes, the reconciliation keeps, wherever
  -- it stops.
  pub reconcile-Keeps :
      ((ns name : String) → Keeps Inv (repo.list_by_pool ns name))
      → (pool : VNodePool) → Keeps Inv (reconcile repo nodes pool)
  unfolding reconcile
  reconcile-Keeps lists pool =
      Keeps-attempt _ _ _ (λ e. Keeps-answer _) (λ existing. scale-Keeps pool existing)
        (lists pool.namespace pool.name)
