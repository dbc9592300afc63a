-- ===== src/Service/Execution/Host.antt =====
-- internal/domain/service/execution_service.go: `ensureHostPod`, `CleanupPoolPods` and `syncPodResources`.
pub mod Ensure
pub mod Cleanup
pub mod Keeps
pub mod Copies
pub mod Synced
pub mod Calm
use vnode.Base.{
  ℕ, suc, String, ◌<>◌, Bool, true, false, Option, none, some, List, [], ◌∷◌, ◌==◌, if◌then◌else◌,
}
use vnode.Base.Errors.{
  Error, Result, ok, err, leaf, wrap, pod_terminating, is_not_found, is_context_error,
}
use vnode.Base.Exec.{Call, Exec, Action, Reply, answer, pure, raise, attempt, wrapping, ◌>>=◌, ◌>>◌}
use vnode.Base.Map.{Map}
use vnode.Model.Pool.{VNodePool}
use vnode.Model.Pod.{
  PodSpec, PodTranslation, VolumeResourceRef, resource_refs, volume_config_map, volume_secret,
  label_managed_by, label_managed_by_value, label_vnode_pool,
}
use vnode.Kube.{Clientset}
use vnode.Ports.{ClusterClient}
use vnode.Service.Execution.Compare.{pod_specs_equal}

-- The results of `ensureHostPod`.
pub record Ensured : Type 0 where
  pub created : Bool
  pub deleted : Bool
  pub error : Option Error

abbrev pub err_pod_terminating : Error
err_pod_terminating =
    leaf pod_terminating "host pod is terminating, waiting for deletion to complete"

abbrev pub error_of : Result (Unit {0}) → Option Error
error_of (ok _) = none
error_of (err e) = some e

-- `%s/%s`
abbrev pub place : String → String → String
place ns name = ns <> ("/" <> name)

abbrev pub pool_labels : VNodePool → Map String
pool_labels pool = (label_managed_by, label_managed_by_value) ∷ (label_vnode_pool, pool.name) ∷ []

module _ {S : Type 0} (host : ClusterClient S) where
  -- `return true, false, host.CreatePod(ctx, pod)`
  abbrev create_reply : PodSpec → Call S Ensured
  create_reply pod s =
      let (r, s') = host.create_pod pod s in
      (record { created = true; deleted = false; error = error_of r }, s')

  abbrev nothing_done : Option Error → Call S Ensured
  nothing_done e = answer (record { created = false; deleted = false; error = e })

  unfoldable pub ensure_host_pod : PodSpec → Call S Ensured
  ensure_host_pod pod =
      attempt (host.get_pod pod.namespace pod.name)
        (λ e. if is_not_found e then create_reply pod else nothing_done (some e))
        (λ current.
          if current.deleting
          then nothing_done (some err_pod_terminating)
          else if pod_specs_equal current pod
          then nothing_done none
          else attempt (host.delete_pod pod.namespace pod.name) (λ e. nothing_done (some e))
              (λ _.
                answer
                  (record { created = false; deleted = true; error = some err_pod_terminating })))

  abbrev deleted_so_far : ℕ → Option Error → Call S (Reply ℕ)
  deleted_so_far n e = answer (record { value = n; error = e })

  abbrev unless_shutdown : Error → Option Error
  unless_shutdown e = if is_context_error e then none else some e

  -- The loop of `CleanupPoolPods`, with the number of pods deleted so far.
  unfoldable pub delete_all : List PodSpec → ℕ → Call S (Reply ℕ)
  delete_all [] deleted = deleted_so_far deleted none
  delete_all (pod ∷ pods) deleted =
      attempt (host.delete_pod pod.namespace pod.name)
        (λ e. deleted_so_far deleted (unless_shutdown e)) (λ _. delete_all pods (suc deleted))

  unfoldable pub cleanup_pool_pods : VNodePool → Call S (Reply ℕ)
  unfolding delete_all
  cleanup_pool_pods pool =
      attempt (host.list_pods_by_labels pool.namespace (pool_labels pool))
        (λ e. deleted_so_far 0 (unless_shutdown e)) (λ pods. delete_all pods 0)

  module _ {Q : Type 0} (clientset : Clientset Q S) where
    -- One round of the loop of `syncPodResources`; a resource that the tenant lacks is skipped.
    unfoldable pub sync_ref : VNodePool → VolumeResourceRef → Action S
    sync_ref pool ref =
        let source = place ref.source_namespace ref.source_name in
        let target = place pool.namespace ref.target_name in
        if ref.type == volume_config_map
        then attempt (clientset.get_config_map ref.source_namespace ref.source_name)
            (λ e.
              if is_not_found e
              then pure tt
              else raise (wrap ("getting tenant ConfigMap " <> source) e))
            (λ cm. wrapping ("ensuring host ConfigMap " <> target) (
              host.ensure_config_map pool.namespace ref.target_name cm.content cm.binary_content
                (pool_labels pool)))
        else if ref.type == volume_secret
        then attempt (clientset.get_secret ref.source_namespace ref.source_name)
            (λ e.
              if is_not_found e
              then pure tt
              else raise (wrap ("getting tenant Secret " <> source) e))
            (λ secret.
              wrapping ("ensuring host Secret " <> target) (
                host.ensure_secret pool.namespace ref.target_name secret.content
                  (pool_labels pool)))
        else pure tt

    unfoldable pub sync_refs : VNodePool → List VolumeResourceRef → Action S
    unfolding sync_ref
    sync_refs pool [] = pure tt
    sync_refs pool (ref ∷ refs) = sync_ref pool ref >> sync_refs pool refs

    unfoldable pub sync_pod_resources : PodTranslation → VNodePool → Action S
    unfolding sync_refs
    sync_pod_resources translation pool = sync_refs pool (resource_refs translation)
