-- ===== src/Service/Pool/Outcome.antt =====
-- What `Reconcile` returns: the phase and the count of ready nodes.
use vnode.Base.{
  ℕ, zero, suc, ◌≡◌, sym, ap, ◌∙◌, ◌⊎◌, inl, inr, refl, none, some, List, [], ◌∷◌, ◌++◌, length,
  ◌≢◌, Bool-cases, drop_last, arith,
}
use vnode.Base.Errors.{Error}
use vnode.Base.Exec.{Reply, answer}
use vnode.Base.Exec.Outcome.{outcome_attempt}
use vnode.Base.Int.{pos, pos_part, wrap32, eqb_ℤ, eqb_ℤ_sound, eqb_ℤ_refl}
use vnode.Model.Pool.{VNodePool, pool_ready, pool_scaling, pool_failed, desired_scale_actions}
use vnode.Model.Node.{VNode}
use vnode.Ports.{NodeRepository, NodeLifecycle}
use vnode.Service.Pool.Convergence.{last?-cons}
use vnode.Service.Pool.{ready_count, finish, scale_up, scale_down, scale, reconcile}

abbrev pub PhaseMatches : VNodePool → Type 0
PhaseMatches p =
    ((p.phase ≡ pool_ready) × (p.ready_nodes ≡ p.node_count))
    ⊎ ((p.phase ≡ pool_scaling) × (p.ready_nodes ≢ p.node_count))

finish_phase : (pool : VNodePool) (working : List VNode) → PhaseMatches (finish pool working)
unfolding finish
finish_phase pool working =
    let r = wrap32 (pos (ready_count working)) in
    elim (Bool-cases (eqb_ℤ r pool.node_count)) [
      | inl same ↦ inl (rw same, eqb_ℤ_sound r pool.node_count same)
      | inr other ↦ inr (rw other, λ e. cc (sym (eqb_ℤ_refl r) ∙ ap (eqb_ℤ r) e ∙ other))
    ]

module _ {S : Type 0} (repo : NodeRepository S) (nodes : NodeLifecycle S) where
  scale_up-failed :
      (k i : ℕ) (pool : VNodePool) (working : List VNode) (s : S) (e : Error)
      → (scale_up repo nodes k i pool working s).0.error ≡ some e
      → (scale_up repo nodes k i pool working s).0.pool.phase ≡ pool_failed
  unfolding scale_up
  scale_up-failed zero i pool working s e h = cc
  scale_up-failed (suc k) i pool working s e h =
      let (r, s') = nodes.provision pool s in
      ground (
        arith,
        scale_up-failed k (suc i) (record pool { nodes = pool.nodes ++ (r.value.name ∷ []) })
            (working ++ (r.value ∷ [])) s' e,
      )

  scale_down-failed :
      (k : ℕ) (pool : VNodePool) (working : List VNode) (s : S) (e : Error)
      → (scale_down repo nodes k pool working s).0.error ≡ some e
      → (scale_down repo nodes k pool working s).0.pool.phase ≡ pool_failed
  unfolding scale_down
  scale_down-failed zero pool working s e h = cc
  scale_down-failed (suc k) pool [] s e h = cc
  scale_down-failed (suc k) pool (n ∷ ns) s e h =
      let (m, last) = last?-cons n ns in
      ground
        (arith, last, scale_down-failed k pool (drop_last (n ∷ ns)) (nodes.deprovision m s).1 e)

  scale_failed :
      (pool : VNodePool) (existing : List VNode) (s : S) (e : Error)
      → (scale repo nodes pool existing s).0.error ≡ some e
      → (scale repo nodes pool existing s).0.value.phase ≡ pool_failed
  unfolding scale
  scale_failed pool existing s e h =
      let a = desired_scale_actions pool (wrap32 (pos (length existing))) in
      let (up, s₁) = scale_up repo nodes (pos_part a.0) 0 pool existing s in
      ground (
        arith,
        scale_up-failed (pos_part a.0) 0 pool existing s e,
        scale_down-failed (pos_part a.1) up.pool up.working s₁ e,
      )

  scale_phase :
      (pool : VNodePool) (existing : List VNode) (s : S)
      → (scale repo nodes pool existing s).0.error ≡ none
      → PhaseMatches (scale repo nodes pool existing s).0.value
  unfolding scale
  scale_phase pool existing s h =
      let a = desired_scale_actions pool (wrap32 (pos (length existing))) in
      let (up, s₁) = scale_up repo nodes (pos_part a.0) 0 pool existing s in
      let (down, s₂) = scale_down repo nodes (pos_part a.1) up.pool up.working s₁ in
      ground (arith, finish_phase down.pool down.working)

  abbrev Failing : VNodePool → Error → Reply VNodePool × S → Type 0
  Failing pool e (r, t) = r.error ≡ some e → (r.value ≡ pool) ⊎ (r.value.phase ≡ pool_failed)

  abbrev Succeeding : Reply VNodePool × S → Type 0
  Succeeding (r, t) = r.error ≡ none → PhaseMatches r.value

  -- If `Reconcile` returns an error, the pool that it returns is as it was given, or its phase is Failed.
  pub reconcile_failed :
      (pool : VNodePool) (s : S) (e : Error)
      → (reconcile repo nodes pool s).0.error ≡ some e
      → ((reconcile repo nodes pool s).0.value ≡ pool)
        ⊎ ((reconcile repo nodes pool s).0.value.phase ≡ pool_failed)
  unfolding reconcile answer
  reconcile_failed pool s e =
      outcome_attempt (Failing pool e) _ _ _ s
        (λ existing _. λ h. inr (scale_failed pool existing _ e h)) (λ _ _ _. inl refl)

  -- If `Reconcile` returns no error, the phase of the pool that it returns is Ready and its count of
  -- ready nodes is the count that was asked for, or the phase is Scaling and the counts differ.
  pub reconcile_phase :
      (pool : VNodePool) (s : S)
      → (reconcile repo nodes pool s).0.error ≡ none
      → PhaseMatches (reconcile repo nodes pool s).0.value
  unfolding reconcile answer
  reconcile_phase pool s =
      outcome_attempt Succeeding _ _ _ s (λ existing _. scale_phase pool existing _) (λ _ _ p. cc)
