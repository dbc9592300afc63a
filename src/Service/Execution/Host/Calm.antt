-- ===== src/Service/Execution/Host/Calm.antt =====
-- The errors of `ensureHostPod` and `syncPodResources`: none is that of a cancelled context, where no
-- call of the clusters fails with such an error.
use vnode.Base.{
  ◌≡◌, refl, String, Bool, true, false, Option, some, List, [], ◌∷◌, arith, if◌then◌else◌,
}
use mathlib.Core.Path.{subst}
use vnode.Base.Errors.{Error, Result, ok, err, is_not_found, is_context_error}
use vnode.Base.Exec.{Exec, answer, pure, raise, attempt, wrapping, ◌>>=◌}
use vnode.Base.Exec.Outcome.{outcome_attempt, outcome_test, wrapping_err}
use vnode.Base.Map.{Map}
use vnode.Model.Pool.{VNodePool}
use vnode.Model.Pod.{PodSpec, PodTranslation, VolumeResourceRef, resource_refs}
use vnode.Kube.{Clientset, CorePod}
use vnode.Ports.{ClusterClient}
use vnode.Service.Execution.Compare.{pod_specs_equal}
use vnode.Service.Execution.Host.{
  Ensured, ensure_host_pod, error_of, sync_ref, sync_refs, sync_pod_resources,
}

-- The call does not fail for a context that was cancelled or ran out of time.
pub record Calm {S A : Type 0} (m : Exec S A) : Type 0 where
  pub at : (s : S) (e : Error) → (m s).0 ≡ err e → is_context_error e ≡ false

pub record HostCalm {S : Type 0} (host : ClusterClient S) : Type 0 where
  pub create_pod : (p : PodSpec) → Calm (host.create_pod p)
  pub delete_pod : (ns name : String) → Calm (host.delete_pod ns name)
  pub get_pod : (ns name : String) → Calm (host.get_pod ns name)
  pub get_pod_status : (ns name : String) → Calm (host.get_pod_status ns name)
  pub list_pods : (ns : String) (labels : Map String) → Calm (host.list_pods_by_labels ns labels)
  pub ensure_config_map :
      (ns name : String) (content binary labels : Map String)
      → Calm (host.ensure_config_map ns name content binary labels)
  pub ensure_secret :
      (ns name : String) (content labels : Map String)
      → Calm (host.ensure_secret ns name content labels)

pub record TenantCalm {Q S : Type 0} (clientset : Clientset Q S) : Type 0 where
  pub get_pod : (ns name : String) → Calm (clientset.get_pod ns name)
  pub update_pod_status : (ns : String) (p : CorePod Q) → Calm (clientset.update_pod_status ns p)
  pub get_config_map : (ns name : String) → Calm (clientset.get_config_map ns name)
  pub get_secret : (ns name : String) → Calm (clientset.get_secret ns name)

-- No error, or one that is not that of a cancelled context.
abbrev pub IsCalm : Option Error → Type 0
IsCalm e = (f : Error) → e ≡ some f → is_context_error f ≡ false

module _ {S A : Type 0} where
  abbrev CalmResult : Result A × S → Type 0
  CalmResult r = (e : Error) → r.0 ≡ err e → is_context_error e ≡ false

  pub Calm-pure : (a : A) → Calm (pure {S = S} a)
  unfolding answer
  Calm-pure a = record { at = λ s e h. ground (arith, h) }

  pub Calm-raise : (e : Error) → is_context_error e ≡ false → Calm (raise {S = S} {A = A} e)
  unfolding answer
  Calm-raise e c = record { at = λ s f h. cc (h, c) }

  pub Calm-wrapping : (text : String) (m : Exec S A) → Calm m → Calm (wrapping text m)
  Calm-wrapping text m c = record {
    at = λ s e h.
        let (f, bad, same) = wrapping_err text m s e h in
        subst (λ x. is_context_error x ≡ false) same (c.at s f bad);
  }

  pub Calm-test : (b : Bool) (m k : Exec S A) → Calm m → Calm k → Calm (if b then m else k)
  Calm-test true m k c d = c
  Calm-test false m k c d = d

module _ {S A B : Type 0} where
  pub Calm-attempt :
      (m : Exec S A) (handle : Error → Exec S B) (go_on : A → Exec S B)
      → Calm m
      → ((e : Error) → is_context_error e ≡ false → Calm (handle e))
      → ((a : A) → Calm (go_on a))
      → Calm (attempt m handle go_on)
  Calm-attempt m handle go_on c bad good = record {
    at = λ s.
        outcome_attempt CalmResult m handle go_on s (λ a _. (good a).at (m s).1)
          (λ e h. (bad e (c.at s e h)).at (m s).1);
  }

  pub Calm-bind :
      (m : Exec S A) (f : A → Exec S B) → Calm m → ((a : A) → Calm (f a)) → Calm (m >>= f)
  unfolding ◌>>=◌
  Calm-bind m f c d = Calm-attempt m _ f c (λ e h. Calm-raise e h) d

error-IsCalm :
    (r : Result (Unit {0}))
    → ((e : Error) → r ≡ err e → is_context_error e ≡ false)
    → IsCalm (error_of r)
error-IsCalm (ok _) c f h = ground (arith, h)
error-IsCalm (err e) c f h = cc (h, c e refl)

module _ {S : Type 0} {host : ClusterClient S} (h : HostCalm host) where
  abbrev CalmEnsured : Ensured × S → Type 0
  CalmEnsured r = IsCalm r.0.error

  pub ensure_host_pod-IsCalm : (pod : PodSpec) (s : S) → IsCalm (ensure_host_pod host pod s).0.error
  unfolding ensure_host_pod answer
  ensure_host_pod-IsCalm pod s =
      outcome_attempt CalmEnsured _ _ _ s
        (λ current _.
          outcome_test CalmEnsured current.deleting _ _ _ (λ _ f e. cc (e))
            (λ _.
              outcome_test CalmEnsured (pod_specs_equal current pod) _ _ _
                (λ _ f e. ground (arith, e))
                (λ _.
                  outcome_attempt CalmEnsured _ _ _ _ (λ _ _ f e. cc (e))
                    (λ e bad f g. cc (g, (h.delete_pod pod.namespace pod.name).at _ e bad)))))
        (λ e bad.
          outcome_test CalmEnsured (is_not_found e) _ _ _
            (λ _. error-IsCalm _ ((h.create_pod pod).at _))
            (λ _ f g. cc (g, (h.get_pod pod.namespace pod.name).at s e bad)))

  module _ {Q : Type 0} {clientset : Clientset Q S} (t : TenantCalm clientset) where
    sync_ref-Calm :
        (pool : VNodePool) (ref : VolumeResourceRef) → Calm (sync_ref host clientset pool ref)
    unfolding sync_ref
    sync_ref-Calm pool ref =
        Calm-test _ _ _
          (Calm-attempt _ _ _ (t.get_config_map _ _)
            (λ e c. Calm-test _ _ _ (Calm-pure tt) (Calm-raise _ c))
            (λ cm. Calm-wrapping _ _ (h.ensure_config_map _ _ _ _ _)))
          (Calm-test _ _ _
            (Calm-attempt _ _ _ (t.get_secret _ _)
              (λ e c. Calm-test _ _ _ (Calm-pure tt) (Calm-raise _ c))
              (λ secret. Calm-wrapping _ _ (h.ensure_secret _ _ _ _)))
            (Calm-pure tt))

    sync_refs-Calm :
        (pool : VNodePool) (refs : List VolumeResourceRef)
        → Calm (sync_refs host clientset pool refs)
    unfolding sync_refs
    sync_refs-Calm pool [] = Calm-pure tt
    sync_refs-Calm pool (ref ∷ refs) =
        Calm-bind _ _ (sync_ref-Calm pool ref) (λ _. sync_refs-Calm pool refs)

    pub sync_pod_resources-Calm :
        (translation : PodTranslation) (pool : VNodePool)
        → Calm (sync_pod_resources host clientset translation pool)
    unfolding sync_pod_resources
    sync_pod_resources-Calm translation pool = sync_refs-Calm pool (resource_refs translation)
