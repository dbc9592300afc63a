-- ===== src/Adapter/PodSync/Accounts.antt =====
-- What the reconciliations of the pods of pools add to the counters of internal/observability/metrics.go.
pub mod History
use vnode.Base.{
  ℕ, zero, suc, ◌+◌, ◌≡◌, refl, sym, ap, ◌∙◌, String, Bool, true, false, ◌==◌, ◌&&◌, ◌||◌, ltb,
  Option, none, some, List, [], ◌∷◌, if◌then◌else◌, Bool-cases, inl, inr, arith,
}
use native.Mathlib.Nat.{add-zero}
use vnode.Base.Errors.{Error, Result, ok, err, is_context_error, is_not_found}
use mathlib.Core.Path.{subst}
use vnode.Base.Exec.{pure, raise, Call, Action, Reply, answer, ◌>>=◌}
use vnode.Base.Exec.Outcome.{outcome_attempt, outcome_test}
use vnode.Observability.{
  CounterLib, CounterLaws, Observed, aside, count, host_pod_creates, host_pod_deletes, status_syncs,
  execution_failures,
}
use vnode.Model.Pool.{validate, pool_failed}
use vnode.Kube.{Quantities, TenantClients}
use vnode.Ports.{NodeRepository, ClusterClient, PodTranslator}
use vnode.Service.Execution.Host.{cleanup_pool_pods}
use vnode.Service.Execution.Sync.{PodExecutionResult, reconcile_pool}
use vnode.Api.{PoolCr, PoolApi}
use vnode.Adapter.PoolReconciler.{cr_to_pool_model}
use vnode.Adapter.PodSync.{
  Recorder, normal_event, record_warning, pods_cleaned, pods_reconciled, sync_validated,
  sync_pool_cr,
}

-- What an addition of `n` means to the value of the counter `c` for the pool `l`.
abbrev share : (counter pool : String) → ℕ → String → String → ℕ
share counter pool n c l = if (counter == c) && (pool == l) then n else 0

-- What a clean-up of the pool's pods is worth: the pods that it deleted, or one failure.
abbrev pub cleanup_dues : String → Reply ℕ → String → String → ℕ
cleanup_dues name r c l = elim r.error [
  | none ↦ share host_pod_deletes name r.value c l
  | some _ ↦ share execution_failures name 1 c l
]

-- What a round on the pool's pods is worth: what it reports to have done, or one failure.
abbrev pub execution_dues : String → Reply PodExecutionResult → String → String → ℕ
execution_dues name r c l = elim r.error [
  | none ↦
      share host_pod_creates name r.value.created_host_pods c l
      + share host_pod_deletes name r.value.deleted_host_pods c l
      + share status_syncs name r.value.synced_statuses c l
  | some e ↦ if is_context_error e then 0 else share execution_failures name 1 c l
]

module _ (c l : String) {Q W : Type 0} (pools : PoolApi W) (quantities : Quantities Q)
    (repo : NodeRepository W) (host : ClusterClient W) (translator : PodTranslator W)
    (tenants : TenantClients Q W) where
  -- What a call of `Reconcile` is worth after it has read the pool.
  abbrev validated_dues : PoolCr → Option Error → W → ℕ
  validated_dues cr (some e) w = 0
  validated_dues cr none w =
      if cr.deleting
      then cleanup_dues cr.name (cleanup_pool_pods host (cr_to_pool_model cr) w).0 c l
      else if cr.status.phase == pool_failed
      then 0
      else execution_dues cr.name
          (reconcile_pool quantities repo host translator tenants (cr_to_pool_model cr) w).0 c l

  abbrev read_dues : Result PoolCr → W → ℕ
  read_dues (err e) w = 0
  read_dues (ok cr) w = validated_dues cr (validate (cr_to_pool_model cr)) w

  -- What a call of `Reconcile` is worth to the value of a counter for a pool.
  abbrev pub dues : String → String → W → ℕ
  dues ns name w = let (r, w') = pools.get ns name w in read_dues r w'

nothing_added :
    (before : ℕ) (test : Bool) (n : ℕ) → ltb 0 n ≡ false → before ≡ before + (if test then n else 0)
nothing_added before true zero h = sym (add-zero before)
nothing_added before true (suc n) h = ground arith
nothing_added before false n h = sym (add-zero before)

module _ {V : Type 0} {counters : CounterLib V} {value : V → String → String → ℕ}
    (laws : CounterLaws counters value) (c l : String) where
  added_three :
      (v : V) (name : String) (r : PodExecutionResult)
      → value
          (counters.add status_syncs name r.synced_statuses (
            counters.add host_pod_deletes name r.deleted_host_pods
              (counters.add host_pod_creates name r.created_host_pods v)))
          c
          l
        ≡ value v c l + execution_dues name (record { value = r; error = none }) c l
  added_three v name r = omega (
    arith,
    laws.value-add host_pod_creates name r.created_host_pods v c l,
    laws.value-add host_pod_deletes name r.deleted_host_pods
        (counters.add host_pod_creates name r.created_host_pods v) c l,
    laws.value-add status_syncs name r.synced_statuses
        (counters.add host_pod_deletes name r.deleted_host_pods
          (counters.add host_pod_creates name r.created_host_pods v))
        c l,
  )

  module _ {Q W : Type 0} (pools : PoolApi W) (retry : Action W → Action W)
      (quantities : Quantities Q) (repo : NodeRepository W) (host : ClusterClient W)
      (translator : PodTranslator W) (tenants : TenantClients Q W) where
    -- A call that adds `n` to the value of the counter.
    abbrev Adds : {X : Type 0} → ℕ → Observed V W → X × Observed V W → Type 0
    Adds n s r = value r.1.metrics c l ≡ value s.metrics c l + n

    chosen :
        (test : Bool) (m n : ℕ) {X : Type 0} (f g : Call (Observed V W) X) (s : Observed V W)
        → Adds m s (f s)
        → Adds n s (g s)
        → Adds (if test then m else n) s ((if test then f else g) s)
    chosen true m n f g s x y = x
    chosen false m n f g s x y = y

    pods_cleaned-Adds :
        (recorder : Option (Recorder W)) (cr : PoolCr) (deleted : ℕ) (error : Option Error)
        (s : Observed V W)
        → Adds (cleanup_dues cr.name (record { value = deleted; error = error }) c l) s (
            pods_cleaned pools retry quantities repo host translator tenants counters recorder cr
              deleted error s)
    unfolding pods_cleaned ◌>>=◌ count aside normal_event record_warning
    pods_cleaned-Adds none cr deleted (some e) s =
        laws.value-add execution_failures cr.name 1 s.metrics c l
    pods_cleaned-Adds (some events) cr deleted (some e) s =
        laws.value-add execution_failures cr.name 1 s.metrics c l
    pods_cleaned-Adds none cr deleted none s = elim (Bool-cases (ltb 0 deleted)) [
      | inl some_gone ↦ rw some_gone (laws.value-add host_pod_deletes cr.name deleted s.metrics c l)
      | inr none_gone ↦ rw none_gone (nothing_added (value s.metrics c l) _ deleted none_gone)
    ]
    pods_cleaned-Adds (some events) cr deleted none s = elim (Bool-cases (ltb 0 deleted)) [
      | inl some_gone ↦ rw some_gone (laws.value-add host_pod_deletes cr.name deleted s.metrics c l)
      | inr none_gone ↦ rw none_gone (nothing_added (value s.metrics c l) _ deleted none_gone)
    ]

    pods_reconciled-Adds :
        (recorder : Option (Recorder W)) (cr : PoolCr) (result : PodExecutionResult)
        (error : Option Error) (s : Observed V W)
        → Adds (execution_dues cr.name (record { value = result; error = error }) c l) s (
            pods_reconciled pools retry quantities repo host translator tenants counters recorder cr
              result error s)
    unfolding pods_reconciled ◌>>=◌ count aside normal_event record_warning
    pods_reconciled-Adds none cr result (some e) s = elim (Bool-cases (is_context_error e)) [
      | inl quiet ↦ rw quiet (sym (add-zero _))
      | inr loud ↦ rw loud (laws.value-add execution_failures cr.name 1 s.metrics c l)
    ]
    pods_reconciled-Adds (some events) cr result (some e) s =
        elim (Bool-cases (is_context_error e)) [
          | inl quiet ↦ rw quiet (sym (add-zero _))
          | inr loud ↦ rw loud (laws.value-add execution_failures cr.name 1 s.metrics c l)
        ]
    pods_reconciled-Adds none cr result none s =
        elim (Bool-cases (
          ltb 0 result.created_host_pods
          || ltb 0 result.deleted_host_pods
          || ltb 0 result.synced_statuses)) [
            | inl some_done ↦ rw some_done (added_three s.metrics cr.name result)
            | inr none_done ↦ rw none_done (added_three s.metrics cr.name result)
          ]
    pods_reconciled-Adds (some events) cr result none s =
        elim (Bool-cases (
          ltb 0 result.created_host_pods
          || ltb 0 result.deleted_host_pods
          || ltb 0 result.synced_statuses)) [
            | inl some_done ↦ rw some_done (added_three s.metrics cr.name result)
            | inr none_done ↦ rw none_done (added_three s.metrics cr.name result)
          ]

    validated-Adds :
        (recorder : Option (Recorder W)) (cr : PoolCr) (invalid : Option Error) (s : Observed V W)
        → Adds
            (validated_dues c l pools quantities repo host translator tenants cr invalid s.world)
            s
            (sync_validated pools retry quantities repo host translator tenants counters recorder cr
              invalid s)
    unfolding sync_validated cr_to_pool_model aside answer
    validated-Adds recorder cr (some e) s = sym (add-zero _)
    validated-Adds recorder cr none s =
        chosen cr.deleting _ _ _ _ s
          (pods_cleaned-Adds recorder cr _ _
            (record s { world = (cleanup_pool_pods host (cr_to_pool_model cr) s.world).1 }))
          (chosen (cr.status.phase == pool_failed) _ _ _ _ s (sym (add-zero _)) (
            pods_reconciled-Adds recorder cr _ _ (record s {
              world =
                  (reconcile_pool quantities repo host translator tenants (cr_to_pool_model cr)
                    s.world).1;
            })))

    unread :
        (absent : Bool) (e : Error) (s t : Observed V W)
        → t.metrics ≡ s.metrics
        → Adds 0 s ((if absent then pure 0 else raise {A = ℕ} e) t)
    unfolding answer
    unread true e s t same = rw same (sym (add-zero _))
    unread false e s t same = rw same (sym (add-zero _))

    -- Whatever `Reconcile` finds, and whether or not there is a recorder of events, it adds to each counter what
    -- the round that it made is worth, and for its own pool alone.
    pub sync_pool_cr-Adds :
        (recorder : Option (Recorder W)) (ns name : String) (s : Observed V W)
        → value
            (sync_pool_cr pools retry quantities repo host translator tenants counters recorder ns
              name s).1.metrics
            c
            l
          ≡ value s.metrics c l
            + dues c l pools quantities repo host translator tenants ns name s.world
    unfolding sync_pool_cr aside
    sync_pool_cr-Adds recorder ns name s =
        let w = (pools.get ns name s.world).1 in
        let Added : Result ℕ × Observed V W → Type 0 =
          Adds (dues c l pools quantities repo host translator tenants ns name s.world) s in
        outcome_attempt Added _ _ _ s
          (λ cr got.
            subst
              (λ r. Adds (read_dues c l pools quantities repo host translator tenants r w) s (
                sync_validated pools retry quantities repo host translator tenants counters recorder
                  cr (validate (cr_to_pool_model cr)) (record s { world = w })))
              (sym got) (validated-Adds recorder cr _ (record s { world = w })))
          (λ e bad.
            subst
              (λ r.
                Adds (read_dues c l pools quantities repo host translator tenants r w) s
                  ((if is_not_found e then pure 0 else raise {A = ℕ} e) (record s { world = w })))
              (sym bad) (unread (is_not_found e) e s _ refl))
