-- ===== src/Service/Execution/Sync/Cleaned.antt =====
-- Where a run of `ReconcilePool` ends that meets no error: in the cleanup, with the keys of all the host
-- pods that it wants.
use vnode.Base.{
  ◌≡◌, ◌↔◌, ◌⊎◌, inl, inr, refl, String, Bool, true, false, not, Option, none, some, List, [], ◌∷◌,
  Any, is_some, arith, eq_iff, if◌then◌else◌,
}
use vnode.Base.Errors.{Error, is_not_found, is_context_error, is_pod_terminating}
use vnode.Base.Exec.{Exec, Reply, answer, attempt}
use vnode.Base.Exec.Outcome.{outcome_attempt}
use vnode.Base.Map.{Map, lookup, insert, lookup-insert}
use vnode.Model.Pool.{VNodePool}
use vnode.Model.Pod.{PodTranslation, translate_pod}
use vnode.Kube.{Quantities, CorePod, Clientset}
use vnode.Ports.{ClusterClient, IsolationRuntime}
use vnode.Service.Pod.{translate, sync_status, translate_opts, pod_translator}
use vnode.Service.Execution.Core.{pod_from_core, is_terminal_pod}
use vnode.Service.Execution.Host.{ensure_host_pod}
use vnode.Service.Execution.Host.Calm.{
  Calm, IsCalm, HostCalm, TenantCalm, Calm-bind, ensure_host_pod-IsCalm, sync_pod_resources-Calm,
}
use vnode.Service.Execution.Sync.{
  PodExecutionResult, key_for_pod, Outcome, stop, update_tenant_pod_status, ensured_step,
  ensure_step, status_step, terminal_step, checked_round, clean, run_pods,
}

module _ {S : Type 0} (P : Reply PodExecutionResult × S → Type 0) where
  -- Where the call returns no error, its outcome is as said.
  abbrev pub Fine : Outcome S → Type 0
  Fine m = (s : S) → (m s).0.error ≡ none → P (m s)

  pub stop-Fine :
      (r : PodExecutionResult) (e wrapped : Error)
      → is_context_error e ≡ false
      → Fine (stop r e wrapped)
  unfolding answer
  stop-Fine r e wrapped c s h = ground (arith, c, h)

  attempt-Fine :
      {A : Type 0} (m : Exec S A) (handle : Error → Outcome S) (go_on : A → Outcome S)
      → Calm m
      → ((e : Error) → is_context_error e ≡ false → Fine (handle e))
      → ((a : A) → Fine (go_on a))
      → Fine (attempt m handle go_on)
  attempt-Fine m handle go_on c bad good s =
      outcome_attempt (λ (r : Reply PodExecutionResult × S). r.0.error ≡ none → P r) m handle go_on
        s (λ a _. good a _) (λ e h. bad e (c.at s e h) _)

  test-Fine :
      (b : Bool) (yes_call no_call : Outcome S)
      → Fine yes_call
      → Fine no_call
      → Fine (if b then yes_call else no_call)
  test-Fine true yes_call no_call y n = y
  test-Fine false yes_call no_call y n = n

module _ {Q S : Type 0} (quantities : Quantities Q) (runtime : IsolationRuntime S)
    (pool : VNodePool) where
  -- The key of the host pod that the pod is translated to.
  abbrev pub host_key : CorePod Q → String
  host_key pod =
      let t =
        translate_pod (pod_from_core quantities pod)
          (translate_opts runtime.runtime_class_name pool pod.node_name) in
      key_for_pod t.target_pod.namespace t.target_pod.name

  abbrev pub wanted : List (CorePod Q) → Map (Unit {0}) → Map (Unit {0})
  wanted [] desired = desired
  wanted (pod ∷ pods) desired = wanted pods (insert (host_key pod) tt desired)

  pub wanted_iff :
      (pods : List (CorePod Q)) (desired : Map (Unit {0})) (k : String)
      → is_some (lookup k (wanted pods desired)) ≡ true
        ↔ Any (λ pod. host_key pod ≡ k) pods ⊎ (is_some (lookup k desired) ≡ true)
  wanted_iff [] desired k = (λ h. inr h, λ h. elim h [ inl e ↦ absurd e | inr h ↦ h ])
  wanted_iff (pod ∷ pods) desired k =
      let key = host_key pod in
      let (fwd, bwd) = wanted_iff pods (insert key tt desired) k in
      let put = lookup-insert key k tt desired in
      (
        λ h. elim (fwd h) [
          | inl later ↦ inl (inr later)
          | inr here ↦ ground (arith, here, put, eq_iff k key)
        ],
        λ h. bwd (ground (arith, h, put, eq_iff k key)),
      )

module _ {Q S : Type 0} (quantities : Quantities Q) {clientset : Clientset Q S}
    (tenant_calm : TenantCalm clientset) {host : ClusterClient S} (calm : HostCalm host)
    (runtime : IsolationRuntime S) (pool : VNodePool) where
  module _ (P : Reply PodExecutionResult × S → Type 0) where
    ensured_step-Fine :
        (created deleted : Bool) (error : Option Error) (pod : CorePod Q)
        (result : PodExecutionResult) (next skip : PodExecutionResult → Outcome S)
        → IsCalm error
        → ((x : PodExecutionResult) → Fine P (next x))
        → ((x : PodExecutionResult) → Fine P (skip x))
        → Fine P (
            ensured_step quantities clientset host
              (pod_translator runtime)
              pool
              (record { created = created; deleted = deleted; error = error })
              pod
              result
              next
              skip)
    unfolding ensured_step
    ensured_step-Fine created deleted none pod result next skip c go jump = go _
    ensured_step-Fine created deleted (some e) pod result next skip c go jump =
        test-Fine P (is_pod_terminating e) _ _ (jump _) (stop-Fine P result e _ (c e refl))

    ensure_step-Fine :
        (t : PodTranslation) (pod : CorePod Q) (result : PodExecutionResult)
        (next skip : PodExecutionResult → Outcome S)
        → ((x : PodExecutionResult) → Fine P (next x))
        → ((x : PodExecutionResult) → Fine P (skip x))
        → Fine P (
            ensure_step quantities clientset host
              (pod_translator runtime)
              pool
              t
              pod
              result
              next
              skip)
    unfolding ensure_step
    ensure_step-Fine t pod result next skip go jump =
        test-Fine P (is_terminal_pod pod) _ _ (go _) (λ s.
          let (r, s') = ensure_host_pod host t.target_pod s in
          ensured_step-Fine r.created r.deleted r.error pod result next skip
            (ensure_host_pod-IsCalm calm t.target_pod s) go jump s')

    status_step-Fine :
        (t : PodTranslation) (pod : CorePod Q) (result : PodExecutionResult)
        (next : PodExecutionResult → Outcome S)
        → ((x : PodExecutionResult) → Fine P (next x))
        → Fine P
            (status_step quantities clientset host (pod_translator runtime) pool t pod result next)
    unfolding status_step update_tenant_pod_status sync_status answer
    status_step-Fine t pod result next go =
        attempt-Fine P _ _ _ (calm.get_pod_status _ _)
          (λ e c. test-Fine P (not (is_not_found e)) _ _ (stop-Fine P result e _ c) (go _))
          (λ host_status.
            attempt-Fine P _ _ _ (record { at = λ s e h. ground (arith, h) })
              (λ e c. stop-Fine P result e _ c)
              (λ synced.
                attempt-Fine P _ _ _
                  (Calm-bind _ _ (tenant_calm.get_pod _ _)
                    (λ current. tenant_calm.update_pod_status _ _))
                  (λ e c. stop-Fine P result e _ c) (λ _. go _)))

    terminal_step-Fine :
        (t : PodTranslation) (pod : CorePod Q) (result : PodExecutionResult)
        (next : PodExecutionResult → Outcome S)
        → ((x : PodExecutionResult) → Fine P (next x))
        → Fine P (
            terminal_step quantities clientset host (pod_translator runtime) pool t pod result next)
    unfolding terminal_step
    terminal_step-Fine t pod result next go =
        test-Fine P (is_terminal_pod pod) _ _
          (attempt-Fine P _ _ _ (calm.delete_pod _ _) (λ e c. stop-Fine P result e _ c) (λ _. go _))
          (go _)

    checked_round-Fine :
        (t : PodTranslation) (pod : CorePod Q) (result : PodExecutionResult)
        (next : PodExecutionResult → Outcome S)
        → ((x : PodExecutionResult) → Fine P (next x))
        → Fine P (
            checked_round quantities clientset host (pod_translator runtime) pool t pod result next)
    unfolding checked_round
    checked_round-Fine t pod result next go =
        ensure_step-Fine t pod result _ next
          (λ x. status_step-Fine t pod x _ (λ y. terminal_step-Fine t pod y next go)) go

  -- The outcome is that of the cleanup, begun with this map.
  abbrev pub CleanedWith : Map (Unit {0}) → Reply PodExecutionResult × S → Type 0
  CleanedWith desired r =
      (result : PodExecutionResult) × (t : S) × (r
        ≡ clean quantities clientset host (pod_translator runtime) pool desired result t)

  pub run_pods-Fine :
      (pods : List (CorePod Q)) (desired : Map (Unit {0})) (result : PodExecutionResult)
      → Fine
          (CleanedWith (wanted quantities runtime pool pods desired))
          (run_pods quantities clientset host (pod_translator runtime) pool pods desired result)
  unfolding run_pods translate answer attempt
  run_pods-Fine [] desired result s h = (result, s, refl)
  run_pods-Fine (pod ∷ pods) desired result s h =
      let t =
        translate_pod (pod_from_core quantities pod)
          (translate_opts runtime.runtime_class_name pool pod.node_name) in
      let P = CleanedWith (wanted quantities runtime pool (pod ∷ pods) desired) in
      attempt-Fine P _ _ _ (sync_pod_resources-Calm calm tenant_calm t pool)
        (λ e c. stop-Fine P result e _ c)
        (λ _.
          checked_round-Fine P t pod result _
            (λ x. run_pods-Fine pods (insert (host_key quantities runtime pool pod) tt desired) x))
        s h
