-- ===== src/Adapter/PoolReconciler/Finalizer/Others.antt =====
-- A reconciliation of a pool leaves the finalizers of the others.
use vnode.Base.{
  ◌≡◌, inl, inr, ◌∙◌, String, Bool, false, not, ◌&&◌, ◌==◌, Option, none, some, List, [], ◌∷◌,
  arith, eq_iff,
}
use vnode.Base.Errors.{Error, is_not_found}
use vnode.Base.Exec.{Action}
use vnode.Base.Exec.Keeps.{
  Keeps, keeps_rules, Keeps-attempt_known, Keeps-test, Keeps-answer, Keeps-bind, Keeps-wrapping,
  Keeps-dropping_error,
}
use vnode.Ports.{PoolManager}
use vnode.Api.{PoolCr, VNodeCr, VNodeApi, PoolApi, Finalizers}
use vnode.Api.Retry.{Retries, retry-Keeps}
use vnode.Adapter.PoolReconciler.{
  pool_finalizer, emptied, write_unfinalized, finish_deletion, cleaned_up, handle_deletion,
  ensure_finalizer, reconcile_pool_cr,
}
use vnode.Adapter.PoolReconciler.Finalizer.{
  FinalizerLaws, Held, getting, listing, reconciling, update_pool_status-Held, validated-Held,
}

module _ {S : Type 0} {pools : PoolApi S} {vnodes : VNodeApi S} {finalizers : Finalizers}
    {manager : PoolManager S} {held : S → String → String → Bool}
    (laws : FinalizerLaws pools vnodes finalizers manager held) {retry : Action S → Action S}
    (retries : Retries retry) (ns name : String) where
  abbrev pub IsOther : String → String → Type 0
  IsOther j k = ((j == ns) && (k == name)) ≡ false

  abbrev Kept : S → Type 0
  Kept = Held laws retries ns name

  updating_other : (cr : PoolCr) → IsOther cr.namespace cr.name → Keeps Kept (pools.update cr)
  updating_other cr other = record {
    at = λ t h. elim (laws.update_changes cr t ns name) [
      | inl same ↦ same ∙ h
      | inr (e, f, _) ↦ ground (arith, e, f, other, eq_iff cr.namespace ns, eq_iff cr.name name)
    ];
  }

  write_unfinalized-Kept :
      (cr : PoolCr)
      → IsOther cr.namespace cr.name
      → Keeps Kept (write_unfinalized pools vnodes finalizers retry manager cr)
  unfolding write_unfinalized
  write_unfinalized-Kept cr other =
      Keeps-attempt_known
        (λ (current : PoolCr). (current.namespace ≡ cr.namespace) × (current.name ≡ cr.name)) _ _ _
        (λ s current read. laws.get_named cr.namespace cr.name s current read)
        (λ e. search keeps_rules)
        (λ current (e, f).
          Keeps-bind _ _ (λ _. Keeps-answer _)
            (updating_other
              (record current { finalizers = finalizers.remove current.finalizers pool_finalizer })
              (cc (e, f, other))))
        (getting laws retries ns name cr.namespace cr.name)

  finish_deletion-Kept :
      (cr : PoolCr) (remaining : List VNodeCr)
      → IsOther cr.namespace cr.name
      → Keeps Kept (finish_deletion pools vnodes finalizers retry manager cr remaining)
  unfolding finish_deletion
  finish_deletion-Kept cr [] other =
      Keeps-bind _ _ (λ _. Keeps-answer _)
        (Keeps-wrapping _ _ (retry-Keeps retries _ (write_unfinalized-Kept cr other)))
  finish_deletion-Kept cr (n ∷ remaining) other = Keeps-answer _

  cleaned_up-Kept :
      (cr : PoolCr) (e : Option Error)
      → IsOther cr.namespace cr.name
      → Keeps Kept (cleaned_up pools vnodes finalizers retry manager cr e)
  unfolding cleaned_up
  cleaned_up-Kept cr (some e) other = Keeps-answer _
  cleaned_up-Kept cr none other =
      Keeps-bind _ _ (λ remaining. finish_deletion-Kept cr remaining other)
        (Keeps-wrapping _ _ (listing laws retries ns name _ _))

  handle_deletion-Kept :
      (cr : PoolCr)
      → IsOther cr.namespace cr.name
      → Keeps Kept (handle_deletion pools vnodes finalizers retry manager cr)
  unfolding handle_deletion
  handle_deletion-Kept cr other =
      Keeps-test (not (finalizers.contains cr.finalizers pool_finalizer)) _ _ (Keeps-answer _) (
        Keeps-bind _ _
          (λ _. record {
            at = λ s h.
                let (r, t) = manager.reconcile (emptied cr) s in
                (cleaned_up-Kept cr r.error other).at t
                  (reconciling laws retries ns name (emptied cr) s h);
          })
          (Keeps-dropping_error _ (update_pool_status-Held laws retries ns name _ _ _)))

  ensure_finalizer-Kept :
      (cr : PoolCr)
      → IsOther cr.namespace cr.name
      → Keeps Kept (ensure_finalizer pools vnodes finalizers retry manager cr)
  unfolding ensure_finalizer
  ensure_finalizer-Kept cr other =
      Keeps-test (finalizers.contains cr.finalizers pool_finalizer) _ _ (Keeps-answer _) (
        Keeps-wrapping _ _ (
          updating_other (record cr { finalizers = finalizers.add cr.finalizers pool_finalizer })
            other))

  -- A call of `Reconcile` takes the finalizer from no pool but its own.
  pub reconcile_pool_cr-Kept :
      (j k : String)
      → IsOther j k
      → Keeps Kept (reconcile_pool_cr pools vnodes finalizers retry manager j k)
  unfolding reconcile_pool_cr
  reconcile_pool_cr-Kept j k other =
      Keeps-attempt_known (λ (cr : PoolCr). (cr.namespace ≡ j) × (cr.name ≡ k)) _ _ _
        (λ s cr read. laws.get_named j k s cr read)
        (λ e. Keeps-test (is_not_found e) _ _ (Keeps-answer _) (Keeps-answer _))
        (λ cr (e, f).
          let off : IsOther cr.namespace cr.name = cc (e, f, other) in
          Keeps-test cr.deleting _ _ (handle_deletion-Kept cr off) (
            Keeps-bind _ _ (λ current. validated-Held laws retries ns name current _)
              (ensure_finalizer-Kept cr off)))
        (getting laws retries ns name j k)
