-- ===== src/Service/Execution/Sync/Exact.antt =====
-- Which host pods a run of `ReconcilePool` over the source pods leaves, and which it deletes in the end.
use mathlib.Core.Path.{subst}
use vnode.Base.{
  ◌≡◌, ◌↔◌, inl, inr, sym, true, none, List, [], All, All-map, Any, Bool-cases, is_some, arith,
  String,
}
use vnode.Base.Errors.{ok}
use vnode.Base.Exec.{Reply}
use vnode.Base.Exec.Outcome.{outcome_attempt}
use vnode.Base.Map.{Map, lookup}
use vnode.Model.Pool.{VNodePool}
use vnode.Model.Pod.{PodSpec}
use vnode.Kube.{Quantities, CorePod, Clientset}
use vnode.Ports.{ClusterClient, IsolationRuntime}
use vnode.Service.Pod.{pod_translator}
use vnode.Service.Execution.Host.{pool_labels}
use vnode.Service.Execution.Host.Calm.{HostCalm, TenantCalm}
use vnode.Service.Execution.Host.Ensure.{PodView, IsGone, PodLaws}
use vnode.Service.Execution.Sync.{PodExecutionResult, key_for_pod, clean, run_pods}
use vnode.Service.Execution.Sync.Cleaned.{host_key, wanted, wanted_iff, run_pods-Fine, stop-Fine}
use vnode.Service.Execution.Sync.Sweep.{DeletesOnly, Swept, sweep_exact}

module _ {Q S : Type 0} (quantities : Quantities Q) (clientset : Clientset Q S)
    (host : ClusterClient S) (runtime : IsolationRuntime S) (pool : VNodePool)
    (view : PodView S) where
  -- The host pod is that of one of the pods.
  abbrev HasSource : List (CorePod Q) → PodSpec → Type 0
  HasSource pods p =
      Any (λ pod. host_key quantities runtime pool pod ≡ key_for_pod p.namespace p.name) pods

  -- From one world to the other, a host pod of one of the source pods is as it was, and another one is gone
  -- or being deleted.
  abbrev Settled : List (CorePod Q) → S → S → PodSpec → Type 0
  Settled pods t u p =
      (HasSource pods p → view u p.namespace p.name ≡ view t p.namespace p.name)
      × (¬ HasSource pods p → IsGone (view u p.namespace p.name))

  -- The run ends with the cleanup, begun with the keys of the host pods of the source pods, and the pods that
  -- the cleanup lists are settled.
  abbrev pub EndsExactly : List (CorePod Q) → Reply PodExecutionResult × S → Type 0
  EndsExactly pods run =
      (desired : Map (Unit {0})) × (counts : PodExecutionResult) × (t : S) × (hosts : List PodSpec)
      × (run ≡ clean quantities clientset host (pod_translator runtime) pool desired counts t)
      × ((key : String)
          → is_some (lookup key desired) ≡ true
            ↔ Any (λ pod. host_key quantities runtime pool pod ≡ key) pods)
      × ((host.list_pods_by_labels pool.namespace (pool_labels pool) t).0 ≡ ok hosts)
      × All (Settled pods (host.list_pods_by_labels pool.namespace (pool_labels pool) t).1 run.1)
          hosts

module _ {Q S : Type 0} (quantities : Quantities Q) {clientset : Clientset Q S}
    (tenant_calm : TenantCalm clientset) {host : ClusterClient S} (calm : HostCalm host)
    (runtime : IsolationRuntime S) (pool : VNodePool) (view : PodView S) {Kept : PodSpec → Type 0}
    (laws : PodLaws host view Kept) (only : DeletesOnly host view) where
  settles :
      (pods : List (CorePod Q)) (t u : S) (p : PodSpec)
      → Swept view (wanted quantities runtime pool pods []) t u p
      → Settled quantities clientset host runtime pool view pods t u p
  settles pods t u p (kept, gone) =
      let (fwd, bwd) =
        wanted_iff quantities runtime pool pods [] (key_for_pod p.namespace p.name) in
      (
        λ m. kept (bwd (inl m)),
        λ n.
            elim (Bool-cases (
              is_some (
                lookup (key_for_pod p.namespace p.name)
                  (wanted quantities runtime pool pods [])))) [
                    | inl here ↦ elim (fwd here) [
                      | inl m ↦ absurd (n m)
                      | inr e ↦ ground (arith, e)
                    ]
                    | inr orphan ↦ gone orphan
                  ],
      )

  clean_exact :
      (desired : Map (Unit {0})) (result : PodExecutionResult) (t : S)
      → (clean quantities clientset host (pod_translator runtime) pool desired result t).0.error
        ≡ none
      → (hosts : List PodSpec) × ((host.list_pods_by_labels pool.namespace (pool_labels pool) t).0
          ≡ ok hosts)
        × All
            (Swept view desired
              (host.list_pods_by_labels pool.namespace (pool_labels pool) t).1
              (clean quantities clientset host (pod_translator runtime) pool desired result t).1)
            hosts
  unfolding clean
  clean_exact desired result t =
      let listing = host.list_pods_by_labels pool.namespace (pool_labels pool) in
      let Done : Reply PodExecutionResult × S → Type 0 = λ r.
        r.0.error ≡ none
        → (hosts : List PodSpec) × ((listing t).0 ≡ ok hosts)
          × All (Swept view desired (listing t).1 r.1) hosts in
      outcome_attempt Done listing _ _ t
        (λ hosts listed h. (
          hosts,
          listed,
          sweep_exact quantities clientset host (pod_translator runtime) pool view laws only
              (λ ns name s e bad. (calm.delete_pod ns name).at s e bad) desired hosts result _ h,
        ))
        (λ e bad h. absurd (
          stop-Fine (λ _. ⊥) result e _
            ((calm.list_pods pool.namespace (pool_labels pool)).at t e bad) _ h))

  -- Let no call on the two clusters fail for a cancelled context, and let the host keep the laws of its pods,
  -- where a deletion that succeeds removes its pod or marks it, and changes no other one. If the loops of
  -- `ReconcilePool` over the source pods return no error, they end with the cleanup, which begins with a map
  -- of exactly the keys of the host pods that the source pods are translated to, and which lists the
  -- host pods of the pool. Each pod that it lists is in the end as it was when it was listed, if it
  -- stands at the place of the host pod of one of the source pods, and is gone or being deleted, if it does
  -- not.
  pub run_pods_exact :
      (pods : List (CorePod Q)) (result : PodExecutionResult) (s : S)
      → (run_pods quantities clientset host (pod_translator runtime) pool pods [] result s).0.error
        ≡ none
      → EndsExactly quantities clientset host runtime pool view pods
          (run_pods quantities clientset host (pod_translator runtime) pool pods [] result s)
  run_pods_exact pods result s h =
      let desired = wanted quantities runtime pool pods [] in
      let (counts, t, same) =
        run_pods-Fine quantities tenant_calm calm runtime pool pods [] result s h in
      let (hosts, listed, swept) =
        clean_exact desired counts t
          (subst (λ (r : Reply PodExecutionResult × S). r.0.error ≡ none) same h) in
      (
        desired,
        counts,
        t,
        hosts,
        same,
        λ key.
            let (fwd, bwd) = wanted_iff quantities runtime pool pods [] key in
            (λ w. elim (fwd w) [ inl m ↦ m | inr e ↦ ground (arith, e) ], λ m. bwd (inl m)),
        listed,
        subst
            (λ (r : Reply PodExecutionResult × S).
              All
                (Settled quantities clientset host runtime pool view pods
                  (host.list_pods_by_labels pool.namespace (pool_labels pool) t).1 r.1)
                hosts)
            (sym same) (All-map hosts (λ p. settles pods _ _ p) swept),
      )
