-- ===== src/Examples/Host.antt =====
-- A host cluster in memory and its laws, and the theorems on host pods at concrete data.
use vnode.Base.{
  eq_iff, ◌≡◌, ◌⊎◌, inl, inr, refl, String, true, false, ◌&&◌, Option, none, some, List, [], ◌∷◌,
  ◌++◌, ◌≤◌, All, ◌==◌, if◌then◌else◌, arith, eq_refl, Bool-cases,
}
use vnode.Base.Exec.{answer, attempt}
use vnode.Service.Execution.Compare.{pod_specs_equal}
use vnode.Base.Errors.{
  is_context_error, is_pod_terminating, Error, Result, ok, err, leaf, not_found, already_exists,
}
use vnode.Model.Pod.{PodSpec}
use vnode.Ports.{ClusterClient}
use vnode.Service.Execution.Host.{err_pod_terminating, ensure_host_pod, cleanup_pool_pods}
use vnode.Service.Execution.Host.Ensure.{
  PodView, IsGone, PodLaws, KeepsOff, Tells, ensure_host_pod-Tells,
}
use vnode.Service.Execution.Sync.Sweep.{DeletesOnly}
use vnode.Service.Execution.Host.Calm.{HostCalm}
use vnode.Service.Execution.Host.Cleanup.{cleanup_pool_pods_complete}
use vnode.Examples.Pools.{pool_of}
use vnode.Examples.Pods.{pod}

-- The pod at each namespace and name.
abbrev pub Pods : Type 0
Pods = String → String → Option PodSpec

abbrev pub pods_view : PodView Pods
pods_view w ns name = w ns name

abbrev set_pod : String → String → Option PodSpec → Pods → Pods
set_pod ns name p w ns' name' = if (ns == ns') && (name == name') then p else w ns' name'

abbrev get_found : Option PodSpec → Result PodSpec
get_found none = err (leaf not_found "pods not found")
get_found (some p) = ok p

abbrev created_over : Option PodSpec → PodSpec → Pods → Result (Unit {0}) × Pods
created_over none p w = (ok tt, set_pod p.namespace p.name (some p) w)
created_over (some q) p w = (err (leaf already_exists "pods already exist"), w)

abbrev to_list : Option PodSpec → List PodSpec
to_list none = []
to_list (some p) = p ∷ []

-- It lists the pods at two names.
abbrev pub memory_host : ClusterClient Pods
memory_host = record {
  create_pod = λ p w. created_over (w p.namespace p.name) p w;
  update_pod = λ p w. (ok tt, set_pod p.namespace p.name (some p) w);
  delete_pod = λ ns name w. (ok tt, set_pod ns name none w);
  get_pod = λ ns name w. (get_found (w ns name), w);
  get_pod_status = λ ns name w. (err (leaf not_found "pods not found"), w);
  list_pods_by_labels =
      λ ns labels w. (ok (to_list (w "default" "web") ++ to_list (w "default" "api")), w);
  ensure_config_map = λ ns name content binary labels w. (ok tt, w);
  ensure_secret = λ ns name content labels w. (ok tt, w);
}

set_pod_here : (ns name : String) (p : Option PodSpec) (w : Pods) → set_pod ns name p w ns name ≡ p
set_pod_here ns name p w = rw (eq_refl ns, eq_refl name) refl

get_found_ok : (o : Option PodSpec) (p : PodSpec) → get_found o ≡ ok p → o ≡ some p
get_found_ok none p h = ground (arith, h)
get_found_ok (some q) p h = ground (arith, h)

get_found_missing : (o : Option PodSpec) (e : Error) → get_found o ≡ err e → o ≡ none
get_found_missing none e h = refl
get_found_missing (some q) e h = ground (arith, h)

created_over_ok :
    (o : Option PodSpec) (p : PodSpec) (w : Pods)
    → (created_over o p w).0 ≡ ok tt
    → (created_over o p w).1 p.namespace p.name ≡ some p
created_over_ok none p w h = set_pod_here p.namespace p.name (some p) w
created_over_ok (some q) p w h = ground (arith, h)

get_found_keeps_off :
    (o : Option PodSpec) (e : Error) → get_found o ≡ err e → is_pod_terminating e ≡ false
get_found_keeps_off none e h = ground (arith, h)
get_found_keeps_off (some q) e h = ground (arith, h)

created_over_keeps_off :
    (o : Option PodSpec) (p : PodSpec) (w : Pods) (e : Error)
    → (created_over o p w).0 ≡ err e
    → is_pod_terminating e ≡ false
created_over_keeps_off none p w e h = ground (arith, h)
created_over_keeps_off (some q) p w e h = ground (arith, h)

delete_changes_lem :
    (ns name : String) (w : Pods) (ns' name' : String)
    → (set_pod ns name none w ns' name' ≡ w ns' name') ⊎ IsGone (set_pod ns name none w ns' name')
delete_changes_lem ns name w ns' name' = elim (Bool-cases ((ns == ns') && (name == name'))) [
  | inl here ↦ inr (rw here tt)
  | inr elsewhere ↦ inl (rw elsewhere refl)
]

pub memory_host-lawful : PodLaws memory_host pods_view (λ p. Unit)
memory_host-lawful = record {
  get_ok = λ ns name w p h. get_found_ok (w ns name) p h;
  get_missing = λ ns name w e h _. get_found_missing (w ns name) e h;
  get_keeps = λ ns name w ns' name'. refl;
  create_ok = λ p w _ h. record {
    account = p.service_account_name;
    node = p.node_name;
    is_there = created_over_ok (w p.namespace p.name) p w h;
    filled = inl refl;
  };
  delete_ok = λ ns name w _. rw (eq_refl ns, eq_refl name) tt;
  delete_changes = delete_changes_lem;
}

get_found_calm : (o : Option PodSpec) (e : Error) → get_found o ≡ err e → is_context_error e ≡ false
get_found_calm none e h = cc (h)
get_found_calm (some q) e h = ground (arith, h)

created_over_calm :
    (o : Option PodSpec) (p : PodSpec) (w : Pods) (e : Error)
    → (created_over o p w).0 ≡ err e
    → is_context_error e ≡ false
created_over_calm none p w e h = ground (arith, h)
created_over_calm (some q) p w e h = cc (h)

pub memory_host-HostCalm : HostCalm memory_host
memory_host-HostCalm = record {
  create_pod = λ p. record { at = λ w. created_over_calm (w p.namespace p.name) p w };
  delete_pod = λ ns name. record { at = λ w e h. ground (arith, h) };
  get_pod = λ ns name. record { at = λ w. get_found_calm (w ns name) };
  get_pod_status = λ ns name. record { at = λ w e h. cc (h) };
  list_pods = λ ns labels. record { at = λ w e h. ground (arith, h) };
  ensure_config_map = λ ns name content binary labels. record { at = λ w e h. ground (arith, h) };
  ensure_secret = λ ns name content labels. record { at = λ w e h. ground (arith, h) };
}

memory_host-KeepsOff : KeepsOff memory_host
memory_host-KeepsOff = record {
  get = λ ns name w. get_found_keeps_off (w ns name);
  create = λ p w. created_over_keeps_off (w p.namespace p.name) p w;
  delete = λ ns name w e h. ground (arith, h);
}

abbrev pub no_pods : Pods
no_pods ns name = none

abbrev pub one_pod : Pods
one_pod = set_pod "default" "web" (some pod) no_pods

-- The pod that is there lacks the runtime class, so that it is deleted and the caller told to wait.
abbrev confined : PodSpec
confined = record pod { runtime_class_name = "kata" }

ensure_host_pod-Tells_example :
    Tells confined
      (pods_view (ensure_host_pod memory_host confined one_pod).1 "default" "web")
      (ensure_host_pod memory_host confined one_pod).0.error
ensure_host_pod-Tells_example =
    ensure_host_pod-Tells memory_host pods_view memory_host-lawful memory_host-KeepsOff confined
      one_pod tt ((tt, refl), refl) tt refl

replaces_confined :
    (ensure_host_pod memory_host confined one_pod).0
    ≡ record { created = false; deleted = true; error = some err_pod_terminating }
unfolding ensure_host_pod answer attempt pod_specs_equal
replaces_confined = refl

cleanup_pool_pods_complete_example :
    ((cleanup_pool_pods memory_host (pool_of 1) one_pod).0.value ≤ 1)
    × ((cleanup_pool_pods memory_host (pool_of 1) one_pod).0.value ≡ 1
        → All
            (λ p. IsGone ((cleanup_pool_pods memory_host (pool_of 1) one_pod).1 p.namespace p.name))
            (pod ∷ []))
cleanup_pool_pods_complete_example =
    cleanup_pool_pods_complete memory_host pods_view memory_host-lawful (pool_of 1) one_pod
      (pod ∷ []) refl

pub memory_host-DeletesOnly : DeletesOnly memory_host pods_view
memory_host-DeletesOnly = record {
  at = λ ns name w ns' name'. elim (Bool-cases ((ns == ns') && (name == name'))) [
    | inl here ↦ inr (ground (arith, here, eq_iff ns ns', eq_iff name name'))
    | inr elsewhere ↦ inl (rw elsewhere refl)
  ];
}

abbrev pub two_pods : Pods
two_pods = set_pod "default" "api" (some (record pod { name = "api" })) one_pod
