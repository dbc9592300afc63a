-- ===== src/Service/Execution/Host/Cleanup.antt =====
-- What `CleanupPoolPods` deletes.
use mathlib.Core.Path.{subst}
use vnode.Base.{sym, ap, ℕ, suc, ◌+◌, ◌≤◌, ◌≡◌, inl, inr, List, [], ◌∷◌, length, All, arith}
use vnode.Base.Errors.{ok}
use vnode.Base.Exec.{Reply, answer}
use vnode.Base.Exec.Outcome.{outcome_attempt}
use vnode.Model.Pool.{VNodePool}
use vnode.Model.Pod.{PodSpec}
use vnode.Ports.{ClusterClient}
use vnode.Service.Execution.Host.{delete_all, cleanup_pool_pods, pool_labels}
use vnode.Service.Execution.Host.Ensure.{PodView, IsGone, PodLaws}

module _ {S : Type 0} (host : ClusterClient S) (view : PodView S) {Kept : PodSpec → Type 0}
    (laws : PodLaws host view Kept) where
  abbrev GoneIn : S → PodSpec → Type 0
  GoneIn s p = IsGone (view s p.namespace p.name)

  delete_all-stays :
      (pods : List PodSpec) (n : ℕ) (s : S) (p : PodSpec)
      → GoneIn s p
      → GoneIn (delete_all host pods n s).1 p
  unfolding delete_all answer
  delete_all-stays [] n s p gone = gone
  delete_all-stays (q ∷ pods) n s p gone =
      let now : GoneIn (host.delete_pod q.namespace q.name s).1 p =
        elim (laws.delete_changes q.namespace q.name s p.namespace p.name) [
          | inl same ↦ subst IsGone (sym same) gone
          | inr other ↦ other
        ] in
      outcome_attempt (λ (r : Reply ℕ × S). GoneIn r.1 p) _ _ _ s
        (λ _ _. delete_all-stays pods (suc n) _ p now) (λ _ _. now)

  delete_all_bound :
      (pods : List PodSpec) (n : ℕ) (s : S) → (delete_all host pods n s).0.value ≤ n + length pods
  unfolding delete_all answer
  delete_all_bound [] n s = omega arith
  delete_all_bound (q ∷ pods) n s =
      outcome_attempt (λ (r : Reply ℕ × S). r.0.value ≤ n + suc (length pods)) _ _ _ s
        (λ _ _. omega (arith, delete_all_bound pods (suc n) _)) (λ _ _. omega arith)

  delete_all_complete :
      (pods : List PodSpec) (n : ℕ) (s : S)
      → (delete_all host pods n s).0.value ≡ n + length pods
      → All (GoneIn (delete_all host pods n s).1) pods
  unfolding delete_all answer
  delete_all_complete [] n s = λ h. tt
  delete_all_complete (q ∷ pods) n s =
      outcome_attempt
        (λ (r : Reply ℕ × S).
          r.0.value ≡ n + suc (length pods) → GoneIn r.1 q × All (GoneIn r.1) pods)
        _ _ _ s
        (λ _ done. λ h. (
          delete_all-stays pods (suc n) _ q (laws.delete_ok q.namespace q.name s done),
          delete_all_complete pods (suc n) _ (omega (arith, h)),
        ))
        (λ _ _. λ h. ground (arith, h))

  -- `CleanupPoolPods` counts at most the managed pods of the pool that the host lists, and if it counts
  -- them all, each of them is gone or being deleted. The host keeps the laws of its pods.
  pub cleanup_pool_pods_complete :
      (pool : VNodePool) (s : S) (pods : List PodSpec)
      → (host.list_pods_by_labels pool.namespace (pool_labels pool) s).0 ≡ ok pods
      → ((cleanup_pool_pods host pool s).0.value ≤ length pods)
        × ((cleanup_pool_pods host pool s).0.value ≡ length pods
            → All (GoneIn (cleanup_pool_pods host pool s).1) pods)
  unfolding cleanup_pool_pods answer
  cleanup_pool_pods_complete pool s pods listed =
      outcome_attempt
        (λ (r : Reply ℕ × S).
          (r.0.value ≤ length pods) × (r.0.value ≡ length pods → All (GoneIn r.1) pods))
        _ _ _ s
        (λ found h.
          let same : found ≡ pods = ground (arith, listed, h) in
          let t = (host.list_pods_by_labels pool.namespace (pool_labels pool) s).1 in
          let many : length found ≡ length pods = ap length same in
          (
            omega (arith, many, delete_all_bound found 0 t),
            λ v.
                subst (All (GoneIn (delete_all host found 0 t).1)) same
                  (delete_all_complete found 0 t (omega (arith, many, v))),
          ))
        (λ e h. ground (arith, listed, h))
