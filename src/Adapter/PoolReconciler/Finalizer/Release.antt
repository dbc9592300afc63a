-- ===== src/Adapter/PoolReconciler/Finalizer/Release.antt =====
-- When a pool loses its finalizer.
use vnode.Base.{
  ℕ, ◌≡◌, ◌⊎◌, inl, inr, refl, sym, ◌∙◌, String, ◌<>◌, Bool, true, not, Option, none, some, List,
  [], ◌∷◌,
}
use vnode.Base.Errors.{Error, Result, ok, is_not_found}
use vnode.Base.Exec.{raise, Action, answer, wrapping, ◌>>=◌}
use vnode.Base.Exec.Keeps.{Keeps, Keeps-bind}
use vnode.Base.Exec.Outcome.{outcome_attempt, outcome_test, wrapping_ok}
use vnode.Model.Pool.{validate}
use vnode.Ports.{PoolManager}
use vnode.Api.{PoolCr, VNodeCr, VNodeApi, PoolApi, Finalizers}
use vnode.Api.Retry.{Retries}
use vnode.Adapter.PoolStatus.{deleting_status}
use vnode.Adapter.PoolReconciler.{
  pool_finalizer, pool_selector, cr_to_pool_model, emptied, update_pool_status, finish_deletion,
  cleaned_up, handle_deletion, ensure_finalizer, validated, reconcile_pool_cr,
}
use vnode.Adapter.PoolReconciler.Finalizer.{
  FinalizerLaws, reconciling, update_pool_status-Held, validated-Held, ensure_finalizer-Held, Held,
}

-- From the world the manager emptied the pool of the resource without an error, and then no node of it
-- was listed.
pub record Emptied {S : Type 0} (vnodes : VNodeApi S) (manager : PoolManager S) (cr : PoolCr)
    (s : S) : Type 0 where
  pub reconciled : (manager.reconcile (emptied cr) s).0.error ≡ none
  pub listed_none :
      (vnodes.list cr.namespace (pool_selector cr.name) (manager.reconcile (emptied cr) s).1).0
      ≡ ok []

module _ {S : Type 0} (pools : PoolApi S) (vnodes : VNodeApi S) (finalizers : Finalizers)
    (retry : Action S → Action S) (manager : PoolManager S) where
  -- The world after the status of the pool was set to Deleting.
  abbrev marked : PoolCr → S → S
  marked cr s =
      (update_pool_status pools vnodes finalizers retry manager cr.namespace cr.name deleting_status
        s).1

  -- The pool that is read is being deleted, the manager emptied it without an error, and no node was left.
  abbrev pub Released : String → String → S → Type 0
  Released ns name s =
      (cr : PoolCr) × ((pools.get ns name s).0 ≡ ok cr)
      × (cr.deleting ≡ true)
      × Emptied vnodes manager cr (marked cr (pools.get ns name s).1)

module _ {S : Type 0} {pools : PoolApi S} {vnodes : VNodeApi S} {finalizers : Finalizers}
    {manager : PoolManager S} {held : S → String → String → Bool}
    (laws : FinalizerLaws pools vnodes finalizers manager held) {retry : Action S → Action S}
    (retries : Retries retry) where
  -- The pool still carries the finalizer, or the manager had emptied it and no node of it was left.
  abbrev Safe : PoolCr → S → Result ℕ × S → Type 0
  Safe cr s (r, t) = (held t cr.namespace cr.name ≡ true) ⊎ Emptied vnodes manager cr s

  finish_deletion-Safe :
      (cr : PoolCr) (s : S)
      → (manager.reconcile (emptied cr) s).0.error ≡ none
      → (remaining : List VNodeCr)
      → (vnodes.list cr.namespace (pool_selector cr.name) (manager.reconcile (emptied cr) s).1).0
        ≡ ok remaining
      → (t : S) → held t cr.namespace cr.name ≡ true
      → Safe cr s (finish_deletion pools vnodes finalizers retry manager cr remaining t)
  unfolding finish_deletion answer
  finish_deletion-Safe cr s quiet [] listed t h =
      inr (record { reconciled = quiet; listed_none = listed })
  finish_deletion-Safe cr s quiet (n ∷ remaining) listed t h = inl h

  cleaned_up-Safe :
      (cr : PoolCr) (s : S) (e : Option Error)
      → (manager.reconcile (emptied cr) s).0.error ≡ e
      → held s cr.namespace cr.name ≡ true
      → Safe cr s (
          cleaned_up pools vnodes finalizers retry manager cr e
            (manager.reconcile (emptied cr) s).1)
  unfolding cleaned_up answer ◌>>=◌
  cleaned_up-Safe cr s (some e) failed h =
      inl (reconciling laws retries cr.namespace cr.name (emptied cr) s h)
  cleaned_up-Safe cr s none emptied_it h =
      let still = reconciling laws retries cr.namespace cr.name (emptied cr) s h in
      let u = (manager.reconcile (emptied cr) s).1 in
      let text = "listing remaining VNodes for pool " <> cr.name in
      let listing_nodes = vnodes.list cr.namespace (pool_selector cr.name) in
      let after =
        laws.list_keeps cr.namespace (pool_selector cr.name) u cr.namespace cr.name ∙ still in
      outcome_attempt (Safe cr s) (wrapping text listing_nodes) raise
        (λ remaining. finish_deletion pools vnodes finalizers retry manager cr remaining) u
        (λ remaining listed.
          finish_deletion-Safe cr s emptied_it remaining
            (wrapping_ok text listing_nodes u remaining listed) _ after)
        (λ e bad. inl after)

  handle_deletion-Safe :
      (cr : PoolCr) (s : S)
      → held s cr.namespace cr.name ≡ true
      → Safe cr
          (marked pools vnodes finalizers retry manager cr s)
          (handle_deletion pools vnodes finalizers retry manager cr s)
  unfolding handle_deletion answer ◌>>=◌
  handle_deletion-Safe cr s h =
      outcome_test (Safe cr (marked pools vnodes finalizers retry manager cr s))
        (not (finalizers.contains cr.finalizers pool_finalizer)) _ _ s (λ _. inl h)
        (λ _.
          let still =
            (update_pool_status-Held laws retries cr.namespace cr.name cr.namespace cr.name
                deleting_status).at
              s h in
          cleaned_up-Safe cr (marked pools vnodes finalizers retry manager cr s) _ refl still)

  moved : (t : S) {j k j' k' : String} → j ≡ j' → k ≡ k' → held t j k ≡ true → held t j' k' ≡ true
  moved t e f h = cc (e, f, h)

  going_on-Held :
      {ns name : String} (cr : PoolCr)
      → Keeps (Held laws retries ns name) (
          ensure_finalizer pools vnodes finalizers retry manager cr >>= λ current.
          validated pools vnodes finalizers retry manager current
            (validate (cr_to_pool_model current)))
  going_on-Held {ns} {name} cr =
      Keeps-bind _ _ (λ current. validated-Held laws retries ns name current _)
        (ensure_finalizer-Held laws retries ns name cr)

  -- A call of `Reconcile` takes the finalizer from its pool only if the pool that it read is
  -- being deleted, the pool manager reconciled it to no nodes without an error, and the nodes of
  -- the pool that were listed after that were none.
  pub reconcile_pool_cr_releases :
      (ns name : String) (s : S)
      → held s ns name ≡ true
      → (held (reconcile_pool_cr pools vnodes finalizers retry manager ns name s).1 ns name ≡ true)
        ⊎ Released pools vnodes finalizers retry manager ns name s
  unfolding reconcile_pool_cr answer
  reconcile_pool_cr_releases ns name s h =
      let Kept : Result ℕ × S → Type 0 = λ (r, t).
        (held t ns name ≡ true) ⊎ Released pools vnodes finalizers retry manager ns name s in
      let still = laws.get_keeps ns name s ns name ∙ h in
      outcome_attempt Kept _ _ _ s
        (λ cr read.
          outcome_test Kept cr.deleting _ _ _
            (λ gone.
              let (e, f) = laws.get_named ns name s cr read in
              let u = (pools.get ns name s).1 in
              elim (handle_deletion-Safe cr u (moved u (sym e) (sym f) still)) [
                | inl held_there ↦ inl (moved _ e f held_there)
                | inr empty ↦ inr (cr, read, gone, empty)
              ])
            (λ _. inl ((going_on-Held cr).at _ still)))
        (λ e bad. outcome_test Kept (is_not_found e) _ _ _ (λ _. inl still) (λ _. inl still))
