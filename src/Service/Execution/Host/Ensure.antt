-- ===== src/Service/Execution/Host/Ensure.antt =====
-- The contract of the host cluster's pods, and what `ensureHostPod` reaches on it.
use mathlib.Core.Path.{subst}
use vnode.Base.{◌≡◌, ◌⊎◌, refl, sym, ◌∙◌, String, true, false, Option, none, some, arith}
use vnode.Base.Errors.{Error, Result, ok, err, is_not_found, is_pod_terminating}
use vnode.Base.Exec.{answer}
use vnode.Base.Exec.Outcome.{outcome_attempt, outcome_test}
use vnode.Base.Map.{NodupKeys}
use vnode.Model.Pod.{PodSpec}
use vnode.Ports.{ClusterClient}
use vnode.Service.Execution.Compare.{pod_specs_equal}
use vnode.Service.Execution.Compare.Laws.{IsFilled, pod_specs_equal_filled}
use vnode.Service.Execution.Host.{Ensured, error_of, ensure_host_pod}

-- The pod of a namespace and a name in a world.
abbrev pub PodView : Type 0 → Type 0
PodView S = S → String → String → Option PodSpec

-- No pod is there, or one that is being deleted.
abbrev pub IsGone : Option PodSpec → Type 0
IsGone none = Unit
IsGone (some p) = p.deleting ≡ true

-- The pod `p` is there as it was made, but for its service account, where an empty name may have been
-- filled in, and its node.
pub record IsMade (p : PodSpec) (found : Option PodSpec) : Type 0 where
  pub account : String
  pub node : String
  pub is_there : found ≡ some (record p { service_account_name = account; node_name = node })
  pub filled : IsFilled p.service_account_name account

-- What the calls of the host cluster promise of its pods: a read reports the pod that is there and changes
-- none, a pod that was created is there, and a deletion that succeeds removes its pod at once or marks it,
-- and no call of it revives another one. Only the pods of `Kept` are reported as they were made.
pub record PodLaws {S : Type 0} (host : ClusterClient S) (view : PodView S)
    (Kept : PodSpec → Type 0) : Type 0 where
  pub get_ok :
      (ns name : String) (s : S) (p : PodSpec)
      → (host.get_pod ns name s).0 ≡ ok p
      → view s ns name ≡ some p
  pub get_missing :
      (ns name : String) (s : S) (e : Error)
      → (host.get_pod ns name s).0 ≡ err e
      → is_not_found e ≡ true
      → view s ns name ≡ none
  pub get_keeps :
      (ns name : String) (s : S) (ns' name' : String)
      → view (host.get_pod ns name s).1 ns' name' ≡ view s ns' name'
  pub create_ok :
      (p : PodSpec) (s : S)
      → Kept p
      → (host.create_pod p s).0 ≡ ok tt
      → IsMade p (view (host.create_pod p s).1 p.namespace p.name)
  pub delete_ok :
      (ns name : String) (s : S)
      → (host.delete_pod ns name s).0 ≡ ok tt
      → IsGone (view (host.delete_pod ns name s).1 ns name)
  pub delete_changes :
      (ns name : String) (s : S) (ns' name' : String)
      → (view (host.delete_pod ns name s).1 ns' name' ≡ view s ns' name')
        ⊎ IsGone (view (host.delete_pod ns name s).1 ns' name')

-- A pod is there that is not being deleted and that `podSpecsEqual` takes for the one that is wanted.
pub record Runs (pod : PodSpec) (found : Option PodSpec) : Type 0 where
  pub current : PodSpec
  pub is_there : found ≡ some current
  pub same : pod_specs_equal current pod ≡ true
  pub alive : current.deleting ≡ false

-- The error `errPodTerminating` is the program's own: the calls of the host cluster never return it.
pub record KeepsOff {S : Type 0} (host : ClusterClient S) : Type 0 where
  pub get :
      (ns name : String) (s : S) (e : Error)
      → (host.get_pod ns name s).0 ≡ err e
      → is_pod_terminating e ≡ false
  pub create :
      (p : PodSpec) (s : S) (e : Error)
      → (host.create_pod p s).0 ≡ err e
      → is_pod_terminating e ≡ false
  pub delete :
      (ns name : String) (s : S) (e : Error)
      → (host.delete_pod ns name s).0 ≡ err e
      → is_pod_terminating e ≡ false

-- What each outcome of `ensureHostPod` says of the pod that is found after it: without an error it runs,
-- and after the error of a terminating pod it is gone or going.
abbrev pub Tells : PodSpec → Option PodSpec → Option Error → Type 0
Tells pod found none = Runs pod found
Tells pod found (some e) = is_pod_terminating e ≡ true → IsGone found

module _ {S : Type 0} (host : ClusterClient S) (view : PodView S) {Kept : PodSpec → Type 0}
    (laws : PodLaws host view Kept) (off : KeepsOff host) where
  abbrev Told : PodSpec → Ensured × S → Type 0
  Told pod (r, t) = Tells pod (view t pod.namespace pod.name) r.error

  created_told :
      (pod : PodSpec) (s : S)
      → Kept pod
      → NodupKeys pod.labels
      → NodupKeys pod.node_selector
      → pod.deleting ≡ false
      → (r : Result (Unit {0})) → (host.create_pod pod s).0 ≡ r
      → Tells pod (view (host.create_pod pod s).1 pod.namespace pod.name) (error_of r)
  created_told pod s kept d e alive (ok _) done =
      let made = laws.create_ok pod s kept done in
      record {
        current = record pod { service_account_name = made.account; node_name = made.node };
        is_there = made.is_there;
        same = pod_specs_equal_filled pod made.account made.node d e made.filled;
        alive = alive;
      }
  created_told pod s kept d e alive (err x) bad = λ h. ground (arith, off.create pod s x bad)

  -- If `ensureHostPod` returns no error, the host holds the pod, not being deleted, and alike by the
  -- test of `podSpecsEqual`. If it returns the error of a terminating pod, the pod of that name is gone
  -- or is being deleted. The pod that is wanted names no label or selector key twice and is
  -- not being deleted, and the host keeps the laws of its pods and reports this one as it was made.
  pub ensure_host_pod-Tells :
      (pod : PodSpec) (s : S)
      → Kept pod
      → NodupKeys pod.labels
      → NodupKeys pod.node_selector
      → pod.deleting ≡ false
      → Tells pod
          (view (ensure_host_pod host pod s).1 pod.namespace pod.name)
          (ensure_host_pod host pod s).0.error
  unfolding ensure_host_pod answer
  ensure_host_pod-Tells pod s kept d e alive =
      outcome_attempt (Told pod) _ _ _ s
        (λ current found.
          let t = (host.get_pod pod.namespace pod.name s).1 in
          let here : view t pod.namespace pod.name ≡ some current =
            laws.get_keeps pod.namespace pod.name s pod.namespace pod.name
            ∙ laws.get_ok pod.namespace pod.name s current found in
          outcome_test (Told pod) current.deleting _ _ t
            (λ going. λ _. subst IsGone (sym here) going)
            (λ staying.
              outcome_test (Told pod) (pod_specs_equal current pod) _ _ t
                (λ same. record {
                  current = current;
                  is_there = here;
                  same = same;
                  alive = staying;
                })
                (λ other.
                  outcome_attempt (Told pod) _ _ _ t
                    (λ _ gone. λ _. laws.delete_ok pod.namespace pod.name t gone)
                    (λ x bad. λ h. ground (arith, off.delete pod.namespace pod.name t x bad)))))
        (λ x missing.
          outcome_test (Told pod) (is_not_found x) _ _ _
            (λ absent. created_told pod _ kept d e alive _ refl)
            (λ failed. λ h. ground (arith, off.get pod.namespace pod.name s x missing)))
