-- ===== src/Service/Execution/Sync/Counts.antt =====
-- What `ReconcilePool` returns: its counters, and which errors it never returns.
use vnode.Base.{
  ℕ, suc, ◌≡◌, refl, String, Bool, false, not, Option, none, some, List, [], ◌∷◌, length, arith,
  is_some,
}
use vnode.Base.Errors.{Error, err, is_not_found, is_context_error, is_pod_terminating}
use vnode.Base.Exec.{Reply, answer}
use vnode.Base.Exec.Outcome.{outcome_attempt}
use vnode.Base.Map.{Map, insert, lookup}
use vnode.Model.Pool.{VNodePool}
use vnode.Model.Pod.{PodSpec, PodTranslation}
use vnode.Kube.{Quantities, CorePod, Clientset, TenantClients}
use vnode.Ports.{NodeRepository, ClusterClient, PodTranslator}
use vnode.Service.Execution.Core.{is_terminal_pod}
use vnode.Service.Execution.Host.{ensure_host_pod}
use vnode.Service.Execution.Sync.{
  PodExecutionResult, no_result, key_for_pod, Outcome, ensured_step, ensure_step, status_step,
  terminal_step, checked_round, sweep, clean, run_pods, reconcile_pool,
}
use vnode.Service.Execution.Sync.Ends.{
  Fits, IsCounted, IsGood, counted, Ends, attempt-Ends, test-Ends, stop-Ends,
}

-- No failure to translate a pod is that of a cancelled context.
abbrev pub TranslatesQuietly : {S : Type 0} → PodTranslator S → Type 0
TranslatesQuietly translator =
    (pod : PodSpec) (pool : VNodePool) (node : String) (s : _) (e : Error)
    → (translator.translate pod pool node s).0 ≡ err e
    → is_context_error e ≡ false

module _ {Q S : Type 0} (quantities : Quantities Q) (clientset : Clientset Q S)
    (host : ClusterClient S) (translator : PodTranslator S) (pool : VNodePool) where
  ensured_parts :
      {n c d : ℕ} (created deleted : Bool) (error : Option Error) (pod : CorePod Q)
      (result : PodExecutionResult) (next skip : PodExecutionResult → Outcome S)
      → Fits n (suc c) (suc d) result
      → ((x : PodExecutionResult) → Fits n c (suc d) x → Ends (next x))
      → ((x : PodExecutionResult) → Fits n c d x → Ends (skip x))
      → Ends (
          ensured_step quantities clientset host translator pool
            (record { created = created; deleted = deleted; error = error })
            pod
            result
            next
            skip)
  unfolding ensured_step
  ensured_parts created deleted none pod result next skip f go jump = go _ (record {
    source = ground (arith, f.source);
    created = ground (arith, f.created);
    synced = ground (arith, f.synced);
  })
  ensured_parts created deleted (some e) pod result next skip f go jump =
      test-Ends (is_pod_terminating e) _ _
        (jump _ (record {
          source = ground (arith, f.source);
          created = ground (arith, f.created);
          synced = ground (arith, f.synced);
        }))
        (stop-Ends result e _ f refl)

  ensure_step-Ends :
      {n c d : ℕ} (t : PodTranslation) (pod : CorePod Q) (result : PodExecutionResult)
      (next skip : PodExecutionResult → Outcome S)
      → Fits n (suc c) (suc d) result
      → ((x : PodExecutionResult) → Fits n c (suc d) x → Ends (next x))
      → ((x : PodExecutionResult) → Fits n c d x → Ends (skip x))
      → Ends (ensure_step quantities clientset host translator pool t pod result next skip)
  unfolding ensure_step
  ensure_step-Ends t pod result next skip f go jump =
      test-Ends (is_terminal_pod pod) _ _
        (go _ (record { source = f.source; created = omega (arith, f.created); synced = f.synced }))
        (λ s.
          let (r, s') = ensure_host_pod host t.target_pod s in
          ensured_parts r.created r.deleted r.error pod result next skip f go jump s')

  status_step-Ends :
      {n c d : ℕ} (t : PodTranslation) (pod : CorePod Q) (result : PodExecutionResult)
      (next : PodExecutionResult → Outcome S)
      → Fits n c (suc d) result
      → ((x : PodExecutionResult) → Fits n c d x → Ends (next x))
      → Ends (status_step quantities clientset host translator pool t pod result next)
  unfolding status_step
  status_step-Ends t pod result next f go =
      attempt-Ends _ _ _
        (λ e. test-Ends (not (is_not_found e)) _ _ (stop-Ends result e _ f refl) (
          go _
            (record { source = f.source; created = f.created; synced = omega (arith, f.synced) })))
        (λ host_status.
          attempt-Ends _ _ _ (λ e. stop-Ends result e _ f refl)
            (λ synced.
              attempt-Ends _ _ _ (λ e. stop-Ends result e _ f refl)
                (λ _. go _ (record {
                  source = f.source;
                  created = f.created;
                  synced = omega (arith, f.synced);
                }))))

  terminal_step-Ends :
      {n c d : ℕ} (t : PodTranslation) (pod : CorePod Q) (result : PodExecutionResult)
      (next : PodExecutionResult → Outcome S)
      → Fits n c d result
      → ((x : PodExecutionResult) → Fits n c d x → Ends (next x))
      → Ends (terminal_step quantities clientset host translator pool t pod result next)
  unfolding terminal_step
  terminal_step-Ends t pod result next f go =
      test-Ends (is_terminal_pod pod) _ _
        (attempt-Ends _ _ _ (λ e. stop-Ends result e _ f refl)
          (λ _. go _ (record { source = f.source; created = f.created; synced = f.synced })))
        (go _ f)

  checked_round-Ends :
      {n c d : ℕ} (t : PodTranslation) (pod : CorePod Q) (result : PodExecutionResult)
      (next : PodExecutionResult → Outcome S)
      → Fits n (suc c) (suc d) result
      → ((x : PodExecutionResult) → Fits n c d x → Ends (next x))
      → Ends (checked_round quantities clientset host translator pool t pod result next)
  unfolding checked_round
  checked_round-Ends t pod result next f go =
      let last = λ (r : PodExecutionResult).
        terminal_step quantities clientset host translator pool t pod r next in
      let rest = λ (r : PodExecutionResult).
        status_step quantities clientset host translator pool t pod r last in
      ensure_step-Ends t pod result rest next f
        (λ x g. status_step-Ends t pod x last g (λ y h. terminal_step-Ends t pod y next h go)) go

  sweep-Ends :
      {n c d : ℕ} (desired : Map (Unit {0})) (pods : List PodSpec) (result : PodExecutionResult)
      → Fits n c d result
      → Ends (sweep quantities clientset host translator pool desired pods result)
  unfolding sweep answer
  sweep-Ends desired [] result f = λ s. (counted result f, tt)
  sweep-Ends desired (p ∷ pods) result f =
      test-Ends (is_some (lookup (key_for_pod p.namespace p.name) desired)) _ _
        (sweep-Ends desired pods result f)
        (attempt-Ends _ _ _ (λ e. stop-Ends result e _ f refl)
          (λ _.
            sweep-Ends desired pods _
              (record { source = f.source; created = f.created; synced = f.synced })))

  run_pods-Ends :
      {n : ℕ} (pods : List (CorePod Q)) (desired : Map (Unit {0})) (result : PodExecutionResult)
      → TranslatesQuietly translator
      → Fits n (length pods) (length pods) result
      → Ends (run_pods quantities clientset host translator pool pods desired result)
  unfolding run_pods clean answer
  run_pods-Ends [] desired result quiet f s =
      attempt-Ends _ _ _ (λ e. stop-Ends result e _ f refl)
        (λ hosts. sweep-Ends desired hosts result f) s
  run_pods-Ends (pod ∷ pods) desired result quiet f s =
      outcome_attempt (λ (r : Reply PodExecutionResult × S). IsGood r.0) _ _ _ s
        (λ t _.
          attempt-Ends _ _ _ (λ e. stop-Ends result e _ f refl)
            (λ _.
              let seen = insert (key_for_pod t.target_pod.namespace t.target_pod.name) tt desired in
              checked_round-Ends t pod result
                (λ x. run_pods quantities clientset host translator pool pods seen x) f
                (λ x g. run_pods-Ends pods seen x quiet g))
            _)
        (λ e bad. (counted result f, quiet _ _ _ s e bad))

module _ {Q S : Type 0} (quantities : Quantities Q) (repo : NodeRepository S)
    (host : ClusterClient S) (translator : PodTranslator S) (tenants : TenantClients Q S)
    (quiet : TranslatesQuietly translator) (pool : VNodePool) (s : S) where
  reconcile_pool-IsGood : IsGood (reconcile_pool quantities repo host translator tenants pool s).0
  unfolding reconcile_pool
  reconcile_pool-IsGood =
      let blank : Fits 0 0 0 no_result = record {
        source = refl;
        created = omega arith;
        synced = omega arith;
      } in
      attempt-Ends _ _ _ (λ e. stop-Ends no_result e _ blank refl)
        (λ clientset.
          attempt-Ends _ _ _ (λ e. stop-Ends no_result e _ blank refl)
            (λ nodes.
              attempt-Ends _ _ _ (λ e. stop-Ends no_result e _ blank refl)
                (λ pods.
                  run_pods-Ends quantities clientset host translator pool pods [] _ quiet
                    (record { source = refl; created = omega arith; synced = omega arith }))))
        s

  -- Whether or not it fails, `ReconcilePool` counts at most as many created host pods and at most as
  -- many synced statuses as it counts source pods, if no translation of a pod fails for a cancelled context.
  pub reconcile_pool-IsCounted :
      IsCounted (reconcile_pool quantities repo host translator tenants pool s).0.value
  reconcile_pool-IsCounted = reconcile_pool-IsGood.0

  -- An error that `ReconcilePool` returns is never that of a context which was cancelled or ran out of
  -- time, whichever call met it, if no translation of a pod fails with such an error.
  pub reconcile_pool-IsQuiet :
      (e : Error)
      → (reconcile_pool quantities repo host translator tenants pool s).0.error ≡ some e
      → is_context_error e ≡ false
  reconcile_pool-IsQuiet e h = ground (arith, reconcile_pool-IsGood.1)
