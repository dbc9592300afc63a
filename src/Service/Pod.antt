-- ===== src/Service/Pod.antt =====
-- internal/domain/service/pod_service.go, and the runtime of internal/adapter/outbound/runtime/kata.go.
use vnode.Base.{String, ◌||◌, [], ◌==◌, if◌then◌else◌}
use vnode.Base.Exec.{Exec, pure}
use vnode.Model.Pool.{VNodePool, mode_dedicated, mode_burstable}
use vnode.Model.Pod.{PodSpec, PodStatus, PodTranslation, TranslateOpts, translate_pod}
use vnode.Ports.{IsolationRuntime, PodTranslator}

-- `KataAdapter`
unfoldable pub kata_adapter : {S : Type 0} → String → IsolationRuntime S
kata_adapter runtime_class = record { runtime_class_name = runtime_class; validate = pure tt }

unfoldable pub translate_opts : String → VNodePool → String → TranslateOpts
translate_opts default_class pool vnode_name = record {
  vnode_name = vnode_name;
  pool_name = pool.name;
  target_namespace = pool.namespace;
  runtime_class = if pool.runtime_class_name == "" then default_class else pool.runtime_class_name;
  node_selector =
      if (pool.mode == mode_dedicated) || (pool.mode == mode_burstable)
      then pool.node_selector
      else [];
}

module _ {S : Type 0} (runtime : IsolationRuntime S) where
  unfoldable pub translate : PodSpec → VNodePool → String → Exec S PodTranslation
  unfolding translate_opts
  translate pod pool vnode_name =
      pure (translate_pod pod (translate_opts runtime.runtime_class_name pool vnode_name))

  unfoldable pub sync_status : PodStatus → Exec S PodStatus
  sync_status host_status = pure host_status

  abbrev pub pod_translator : PodTranslator S
  pod_translator = record { translate = translate; sync_status = sync_status }
