-- ===== src/Adapter/PoolReconciler/Keeps.antt =====
-- What a reconciliation of a `VNodePool` keeps: whatever its calls keep.
use vnode.Base.{String, not, Option, none, some, List, [], ◌∷◌}
use vnode.Base.Errors.{Error}
use vnode.Base.Exec.{Action}
use vnode.Base.Exec.Keeps.{
  Keeps, keeps_rules, Keeps-test, Keeps-answer, Keeps-bind, Keeps-wrapping, Keeps-dropping_error,
}
use vnode.Base.Map.{Map}
use vnode.Model.Pool.{VNodePool}
use vnode.Ports.{PoolManager}
use vnode.Api.{PoolStatus, PoolCr, VNodeCr, VNodeApi, PoolApi, Finalizers}
use vnode.Api.Retry.{Retries, retry-Keeps}
use vnode.Adapter.PoolReconciler.{
  pool_finalizer, cr_to_pool_model, emptied, write_pool_status, update_pool_status,
  write_unfinalized, finish_deletion, cleaned_up, handle_deletion, ensure_finalizer, report,
  validated, reconcile_pool_cr,
}

-- Each call that a reconciliation of a pool makes keeps the invariant.
pub record PoolCallsKeep {S : Type 0} (Inv : S → Type 0) (pools : PoolApi S) (vnodes : VNodeApi S)
    (manager : PoolManager S) : Type 0 where
  pub get : (ns name : String) → Keeps Inv (pools.get ns name)
  pub update : (cr : PoolCr) → Keeps Inv (pools.update cr)
  pub patch_status : (base cr : PoolCr) → Keeps Inv (pools.patch_status base cr)
  pub list : (ns : String) (labels : Map String) → Keeps Inv (vnodes.list ns labels)
  pub reconcile : (pool : VNodePool) → Keeps Inv (manager.reconcile pool)

module _ {S : Type 0} {Inv : S → Type 0} {pools : PoolApi S} {vnodes : VNodeApi S}
    {manager : PoolManager S} (calls : PoolCallsKeep Inv pools vnodes manager)
    (finalizers : Finalizers) {retry : Action S → Action S} (retries : Retries retry) where
  getting : (ns name : String) → Keeps Inv (pools.get ns name)
  getting = calls.get

  updating : (cr : PoolCr) → Keeps Inv (pools.update cr)
  updating = calls.update

  patching : (base cr : PoolCr) → Keeps Inv (pools.patch_status base cr)
  patching = calls.patch_status

  listing : (ns : String) (labels : Map String) → Keeps Inv (vnodes.list ns labels)
  listing = calls.list

  ruleset pool_rules = (keeps_rules, getting, updating, patching, listing)

  write_pool_status-Keeps :
      (ns name : String) (mutate : PoolStatus → PoolStatus)
      → Keeps Inv (write_pool_status pools vnodes finalizers retry manager ns name mutate)
  unfolding write_pool_status
  write_pool_status-Keeps ns name mutate = search pool_rules

  update_pool_status-Keeps :
      (ns name : String) (mutate : PoolStatus → PoolStatus)
      → Keeps Inv (update_pool_status pools vnodes finalizers retry manager ns name mutate)
  unfolding update_pool_status
  update_pool_status-Keeps ns name mutate =
      retry-Keeps retries _ (write_pool_status-Keeps ns name mutate)

  write_unfinalized-Keeps :
      (cr : PoolCr) → Keeps Inv (write_unfinalized pools vnodes finalizers retry manager cr)
  unfolding write_unfinalized
  write_unfinalized-Keeps cr = search pool_rules

  finish_deletion-Keeps :
      (cr : PoolCr) (remaining : List VNodeCr)
      → Keeps Inv (finish_deletion pools vnodes finalizers retry manager cr remaining)
  unfolding finish_deletion
  finish_deletion-Keeps cr [] =
      Keeps-bind _ _ (λ _. Keeps-answer _)
        (Keeps-wrapping _ _ (retry-Keeps retries _ (write_unfinalized-Keeps cr)))
  finish_deletion-Keeps cr (n ∷ remaining) = Keeps-answer _

  cleaned_up-Keeps :
      (cr : PoolCr) (e : Option Error)
      → Keeps Inv (cleaned_up pools vnodes finalizers retry manager cr e)
  unfolding cleaned_up
  cleaned_up-Keeps cr (some e) = Keeps-answer _
  cleaned_up-Keeps cr none = search (pool_rules, finish_deletion-Keeps)

  reconciling : (pool : VNodePool) (s : S) → Inv s → Inv (manager.reconcile pool s).1
  reconciling pool s h = (calls.reconcile pool).at s h

  handle_deletion-Keeps :
      (cr : PoolCr) → Keeps Inv (handle_deletion pools vnodes finalizers retry manager cr)
  unfolding handle_deletion
  handle_deletion-Keeps cr =
      Keeps-test (not (finalizers.contains cr.finalizers pool_finalizer)) _ _ (Keeps-answer _) (
        Keeps-bind _ _
          (λ _. record {
            at = λ s h.
                let (r, t) = manager.reconcile (emptied cr) s in
                (cleaned_up-Keeps cr r.error).at t (reconciling (emptied cr) s h);
          })
          (Keeps-dropping_error _ (update_pool_status-Keeps _ _ _)))

  ensure_finalizer-Keeps :
      (cr : PoolCr) → Keeps Inv (ensure_finalizer pools vnodes finalizers retry manager cr)
  unfolding ensure_finalizer
  ensure_finalizer-Keeps cr = search pool_rules

  report-Keeps :
      (cr : PoolCr) (value : VNodePool) (e : Option Error)
      → Keeps Inv (report pools vnodes finalizers retry manager cr value e)
  unfolding report
  report-Keeps cr value (some e) = search (pool_rules, update_pool_status-Keeps)
  report-Keeps cr value none = search (pool_rules, update_pool_status-Keeps)

  validated-Keeps :
      (cr : PoolCr) (e : Option Error)
      → Keeps Inv (validated pools vnodes finalizers retry manager cr e)
  unfolding validated
  validated-Keeps cr (some e) = search (pool_rules, update_pool_status-Keeps)
  validated-Keeps cr none = record {
    at = λ s h.
        let (r, t) = manager.reconcile (cr_to_pool_model cr) s in
        (report-Keeps cr r.value r.error).at t (reconciling (cr_to_pool_model cr) s h);
  }

  -- What each call keeps that a reconciliation of a pool makes, the reconciliation keeps, wherever it stops.
  pub reconcile_pool_cr-Keeps :
      (ns name : String)
      → Keeps Inv (reconcile_pool_cr pools vnodes finalizers retry manager ns name)
  unfolding reconcile_pool_cr
  reconcile_pool_cr-Keeps ns name =
      search (pool_rules, handle_deletion-Keeps, ensure_finalizer-Keeps, validated-Keeps)
