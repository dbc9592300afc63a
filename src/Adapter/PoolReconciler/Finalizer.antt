-- ===== src/Adapter/PoolReconciler/Finalizer.antt =====
-- What is relied on of the finalizer that keeps a pool until its nodes are gone, and the calls that leave it.
pub mod Release
pub mod Others
use vnode.Base.{
  ℕ, ◌≡◌, ◌⊎◌, inl, inr, refl, sym, ◌∙◌, String, ◌<>◌, Bool, true, false, not, Option, none, some,
  List, [], ◌∷◌, Bool-cases, arith, if◌then◌else◌,
}
use vnode.Base.Errors.{Error, Result, ok, err, is_not_found}
use vnode.Base.Exec.{
  raise, Call, Reply, Exec, Action, answer, wrapping, dropping_error, attempt, ◌>>=◌,
}
use vnode.Base.Exec.Keeps.{
  Keeps, keeps_rules, Keeps-attempt, Keeps-attempt_known, Keeps-wrapping, Keeps-bind,
  Keeps-dropping_error,
}
use vnode.Base.Exec.Outcome.{outcome_attempt, outcome_test, wrapping_ok}
use vnode.Base.Map.{Map}
use vnode.Model.Pool.{VNodePool, validate}
use vnode.Ports.{PoolManager}
use vnode.Api.{PoolCr, PoolStatus, VNodeCr, VNodeApi, PoolApi, Finalizers}
use vnode.Api.Retry.{Retries, retry-Keeps}
use vnode.Adapter.PoolStatus.{deleting_status}
use vnode.Adapter.PoolReconciler.{
  pool_finalizer, pool_selector, cr_to_pool_model, emptied, write_pool_status, update_pool_status,
  write_unfinalized, finish_deletion, cleaned_up, handle_deletion, ensure_finalizer, report,
  validated, reconcile_pool_cr,
}

-- What is relied on, where `held` says whether a pool carries the finalizer: reads, writes of the status and
-- the pool manager leave it, an update writes that of its resource, and what was added is contained.
pub record FinalizerLaws {S : Type 0} (pools : PoolApi S) (vnodes : VNodeApi S)
    (finalizers : Finalizers) (manager : PoolManager S) (held : S → String → String → Bool)
    : Type 0 where
  pub contains-add :
      (fs : List String)
      → finalizers.contains (finalizers.add fs pool_finalizer) pool_finalizer ≡ true
  pub get_named :
      (ns name : String) (s : S) (cr : PoolCr)
      → (pools.get ns name s).0 ≡ ok cr
      → (cr.namespace ≡ ns) × (cr.name ≡ name)
  pub get_keeps :
      (j k : String) (s : S) (ns name : String) → held (pools.get j k s).1 ns name ≡ held s ns name
  pub patch_keeps :
      (base cr : PoolCr) (s : S) (ns name : String)
      → held (pools.patch_status base cr s).1 ns name ≡ held s ns name
  pub list_keeps :
      (j : String) (labels : Map String) (s : S) (ns name : String)
      → held (vnodes.list j labels s).1 ns name ≡ held s ns name
  pub manager_keeps :
      (p : VNodePool) (s : S) (ns name : String)
      → held (manager.reconcile p s).1 ns name ≡ held s ns name
  pub update_changes :
      (cr : PoolCr) (s : S) (ns name : String)
      → (held (pools.update cr s).1 ns name ≡ held s ns name)
        ⊎ ((ns ≡ cr.namespace)
            × (name ≡ cr.name)
            × (held (pools.update cr s).1 ns name
                ≡ finalizers.contains cr.finalizers pool_finalizer))

module _ {S : Type 0} {pools : PoolApi S} {vnodes : VNodeApi S} {finalizers : Finalizers}
    {manager : PoolManager S} {held : S → String → String → Bool}
    (laws : FinalizerLaws pools vnodes finalizers manager held) {retry : Action S → Action S}
    (retries : Retries retry) (ns name : String) where
  abbrev Held : S → Type 0
  Held t = held t ns name ≡ true

  leaving :
      {X : Type 0} (m : Call S X) → ((t : S) → held (m t).1 ns name ≡ held t ns name) → Keeps Held m
  leaving m same = record { at = λ t h. same t ∙ h }

  getting : (j k : String) → Keeps Held (pools.get j k)
  getting j k = leaving (pools.get j k) (λ t. laws.get_keeps j k t ns name)

  patching : (base cr : PoolCr) → Keeps Held (pools.patch_status base cr)
  patching base cr = leaving (pools.patch_status base cr) (λ t. laws.patch_keeps base cr t ns name)

  listing : (j : String) (labels : Map String) → Keeps Held (vnodes.list j labels)
  listing j labels = leaving (vnodes.list j labels) (λ t. laws.list_keeps j labels t ns name)

  adding :
      (cr : PoolCr)
      → Keeps Held
          (pools.update (record cr { finalizers = finalizers.add cr.finalizers pool_finalizer }))
  adding cr = record {
    at = λ t h.
        elim (laws.update_changes
          (record cr { finalizers = finalizers.add cr.finalizers pool_finalizer }) t ns name) [
            | inl same ↦ same ∙ h
            | inr (_, _, new) ↦ new ∙ laws.contains-add cr.finalizers
          ];
  }

  ruleset held_rules = (keeps_rules, getting, patching, listing, adding)

  write_pool_status-Held :
      (j k : String) (mutate : PoolStatus → PoolStatus)
      → Keeps Held (write_pool_status pools vnodes finalizers retry manager j k mutate)
  unfolding write_pool_status
  write_pool_status-Held j k mutate = search held_rules

  update_pool_status-Held :
      (j k : String) (mutate : PoolStatus → PoolStatus)
      → Keeps Held (update_pool_status pools vnodes finalizers retry manager j k mutate)
  unfolding update_pool_status
  update_pool_status-Held j k mutate = retry-Keeps retries _ (write_pool_status-Held j k mutate)

  reconciling : (p : VNodePool) (t : S) → Held t → Held (manager.reconcile p t).1
  reconciling p t h = laws.manager_keeps p t ns name ∙ h

  report-Held :
      (cr : PoolCr) (value : VNodePool) (e : Option Error)
      → Keeps Held (report pools vnodes finalizers retry manager cr value e)
  unfolding report
  report-Held cr value (some e) = search (held_rules, update_pool_status-Held)
  report-Held cr value none = search (held_rules, update_pool_status-Held)

  validated-Held :
      (cr : PoolCr) (e : Option Error)
      → Keeps Held (validated pools vnodes finalizers retry manager cr e)
  unfolding validated
  validated-Held cr (some e) = search (held_rules, update_pool_status-Held)
  validated-Held cr none = record {
    at = λ t h.
        let (r, u) = manager.reconcile (cr_to_pool_model cr) t in
        (report-Held cr r.value r.error).at u (reconciling (cr_to_pool_model cr) t h);
  }

  ensure_finalizer-Held :
      (cr : PoolCr) → Keeps Held (ensure_finalizer pools vnodes finalizers retry manager cr)
  unfolding ensure_finalizer
  ensure_finalizer-Held cr = search held_rules
