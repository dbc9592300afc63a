-- ===== src/Service/Execution/Sync/Sweep.antt =====
-- Which host pods the last loop of `ReconcilePool` spares, and which it deletes.
use vnode.Base.{
  none, All, All-map, ◌≡◌, ◌⊎◌, inl, inr, refl, sym, ap, ◌∙◌, String, true, false, List, [], ◌∷◌,
  is_some, arith,
}
use mathlib.Core.Path.{subst}
use vnode.Base.Errors.{Error, err, is_context_error}
use vnode.Base.Exec.{Reply, answer}
use vnode.Base.Exec.Outcome.{outcome_attempt, outcome_test}
use vnode.Base.Map.{Map, lookup}
use vnode.Model.Pool.{VNodePool}
use vnode.Model.Pod.{PodSpec}
use vnode.Kube.{Quantities, Clientset}
use vnode.Ports.{ClusterClient, PodTranslator}
use vnode.Service.Execution.Host.Ensure.{PodView, IsGone, PodLaws}
use vnode.Service.Execution.Sync.{PodExecutionResult, key_for_pod, sweep}

-- A call that deletes a pod changes no other one.
pub record DeletesOnly {S : Type 0} (host : ClusterClient S) (view : PodView S) : Type 0 where
  pub at :
      (ns name : String) (s : S) (ns' name' : String)
      → (view (host.delete_pod ns name s).1 ns' name' ≡ view s ns' name')
        ⊎ ((ns' ≡ ns) × (name' ≡ name))

module _ {Q S : Type 0} (quantities : Quantities Q) (clientset : Clientset Q S)
    (host : ClusterClient S) (translator : PodTranslator S) (pool : VNodePool) (view : PodView S)
    (only : DeletesOnly host view) (desired : Map (Unit {0})) (ns name : String)
    (wanted : is_some (lookup (key_for_pod ns name) desired) ≡ true) where
  spared :
      (p : PodSpec) (s : S)
      → is_some (lookup (key_for_pod p.namespace p.name) desired) ≡ false
      → view (host.delete_pod p.namespace p.name s).1 ns name ≡ view s ns name
  spared p s orphan = elim (only.at p.namespace p.name s ns name) [
    | inl same ↦ same
    | inr (e, f) ↦
        let keys : key_for_pod ns name ≡ key_for_pod p.namespace p.name = cc (e, f) in
        let clash : false ≡ true =
          sym orphan ∙ sym (ap (λ k. is_some (lookup k desired)) keys) ∙ wanted in
        ground (arith, clash)
  ]

  -- The sweep leaves alone every pod whose key is in the map, wherever it stops.
  pub sweep_spares :
      (pods : List PodSpec) (result : PodExecutionResult) (s : S)
      → view (sweep quantities clientset host translator pool desired pods result s).1 ns name
        ≡ view s ns name
  unfolding sweep answer
  sweep_spares [] result s = refl
  sweep_spares (p ∷ pods) result s =
      let Same : Reply PodExecutionResult × S → Type 0 = λ r. view r.1 ns name ≡ view s ns name in
      outcome_test Same (is_some (lookup (key_for_pod p.namespace p.name) desired)) _ _ s
        (λ _. sweep_spares pods result s)
        (λ orphan.
          outcome_attempt Same _ _ _ s (λ _ _. sweep_spares pods _ _ ∙ spared p s orphan)
            (λ _ _. spared p s orphan))

module _ {S : Type 0} (view : PodView S) (desired : Map (Unit {0})) where
  -- A pod whose key is in the map is as it was, and another one is gone or being deleted.
  abbrev pub Swept : S → S → PodSpec → Type 0
  Swept s t p =
      (is_some (lookup (key_for_pod p.namespace p.name) desired) ≡ true
        → view t p.namespace p.name ≡ view s p.namespace p.name)
      × (is_some (lookup (key_for_pod p.namespace p.name) desired) ≡ false
          → IsGone (view t p.namespace p.name))

module _ {Q S : Type 0} (quantities : Quantities Q) (clientset : Clientset Q S)
    (host : ClusterClient S) (translator : PodTranslator S) (pool : VNodePool) (view : PodView S)
    {Kept : PodSpec → Type 0} (laws : PodLaws host view Kept) (only : DeletesOnly host view)
    (undisturbed : (ns name : String) (s : S) (e : Error)
      → (host.delete_pod ns name s).0 ≡ err e
      → is_context_error e ≡ false)
    (desired : Map (Unit {0})) where
  sweep-IsGone :
      (pods : List PodSpec) (result : PodExecutionResult) (s : S) (p : PodSpec)
      → IsGone (view s p.namespace p.name)
      → IsGone (
          view
            (sweep quantities clientset host translator pool desired pods result s).1
            p.namespace
            p.name)
  unfolding sweep answer
  sweep-IsGone [] result s p gone = gone
  sweep-IsGone (q ∷ pods) result s p gone =
      let Gone : Reply PodExecutionResult × S → Type 0 =
        λ r. IsGone (view r.1 p.namespace p.name) in
      let now : IsGone (view (host.delete_pod q.namespace q.name s).1 p.namespace p.name) =
        elim (laws.delete_changes q.namespace q.name s p.namespace p.name) [
          | inl same ↦ subst IsGone (sym same) gone
          | inr other ↦ other
        ] in
      outcome_test Gone (is_some (lookup (key_for_pod q.namespace q.name) desired)) _ _ s
        (λ _. sweep-IsGone pods result s p gone)
        (λ _. outcome_attempt Gone _ _ _ s (λ _ _. sweep-IsGone pods _ _ p now) (λ _ _. now))

  orphans-IsGone :
      (pods : List PodSpec) (result : PodExecutionResult) (s : S)
      → (sweep quantities clientset host translator pool desired pods result s).0.error ≡ none
      → All
          (λ p.
            is_some (lookup (key_for_pod p.namespace p.name) desired) ≡ false
            → IsGone (
                view
                  (sweep quantities clientset host translator pool desired pods result s).1
                  p.namespace
                  p.name))
          pods
  unfolding sweep answer
  orphans-IsGone [] result s = λ h. tt
  orphans-IsGone (q ∷ pods) result s =
      let Done : Reply PodExecutionResult × S → Type 0 = λ r.
        r.0.error ≡ none
        → All
            (λ p.
              is_some (lookup (key_for_pod p.namespace p.name) desired) ≡ false
              → IsGone (view r.1 p.namespace p.name))
            (q ∷ pods) in
      outcome_test Done (is_some (lookup (key_for_pod q.namespace q.name) desired)) _ _ s
        (λ here h. (λ orphan. ground (arith, here, orphan), orphans-IsGone pods result s h))
        (λ here.
          outcome_attempt Done _ _ _ s
            (λ _ done h. (
              λ _. sweep-IsGone pods _ _ q (laws.delete_ok q.namespace q.name s done),
              orphans-IsGone pods _ _ h,
            ))
            (λ e bad h. ground (arith, undisturbed q.namespace q.name s e bad, h)))

  -- A sweep that returns no error leaves each pod that it is given and whose key is in the map as it was,
  -- and each other one is gone or being deleted.
  pub sweep_exact :
      (pods : List PodSpec) (result : PodExecutionResult) (s : S)
      → (sweep quantities clientset host translator pool desired pods result s).0.error ≡ none
      → All
          (Swept view desired s
            (sweep quantities clientset host translator pool desired pods result s).1)
          pods
  sweep_exact pods result s h =
      All-map pods
        (λ p gone. (
          λ here.
              sweep_spares quantities clientset host translator pool view only desired p.namespace
                p.name here pods result s,
          gone,
        ))
        (orphans-IsGone pods result s h)
