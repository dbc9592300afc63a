-- ===== src/Examples/Pods.antt =====
-- The translation of a pod with a token mount and a ConfigMap.
use vnode.Base.{
  ◌≡◌, refl, inl, inr, true, false, none, List, [], ◌∷◌, map, Any, String, arith, eq_iff,
}
use vnode.Model.Resource.{no_resources}
use vnode.Model.Pod.{
  Container, PodSpec, TranslateOpts, Volume, VolumeMount, service_account_path, volume_projected,
  translate_pod, resource_refs,
}
use vnode.Model.Pod.Isolation.{IsIsolated, translate_pod-IsIsolated}
use vnode.Model.Pod.Resources.{resources_named, synced_as, synced_from, translate_pod-resource_refs}
use vnode.Model.Pod.Mounts.{IsWellMounted, translate_pod-IsWellMounted}
use vnode.Model.Pod.Collisions.{translate_pod-injective}

abbrev token : Volume
token = record { name = "token"; type = volume_projected; source = "" }

abbrev settings : Volume
settings = record { name = "cfg"; type = "configMap"; source = "app" }

abbrev mount : String → String → VolumeMount
mount name path = record { name = name; mount_path = path; read_only = true }

abbrev container : List VolumeMount → Container
container mounts = record {
  name = "c";
  image = "nginx";
  command = [];
  args = [];
  env = [];
  volume_mounts = mounts;
  resources = record { requests = no_resources; limits = no_resources };
}

abbrev pod_with : String → String → List VolumeMount → PodSpec
pod_with ns name mounts = record {
  name = name;
  namespace = ns;
  labels = ("app", "web") ∷ ("vnode.kroderdev.io/pool", "stolen") ∷ [];
  node_name = "vnode-p-1";
  containers = container mounts ∷ [];
  volumes = token ∷ settings ∷ [];
  service_account_name = "admin";
  automount_service_account_token = none;
  runtime_class_name = "";
  node_selector = [];
  deleting = false;
}

abbrev pub pod : PodSpec
pod = pod_with "default" "web" (mount "token" service_account_path ∷ mount "cfg" "/etc/app" ∷ [])

abbrev pub opts : TranslateOpts
opts = record {
  vnode_name = "vnode-p-1";
  pool_name = "p";
  target_namespace = "host";
  runtime_class = "kata";
  node_selector = [];
}

abbrev host_pod : PodSpec
host_pod = (translate_pod pod opts).target_pod

host_volumes :
    host_pod.volumes ≡ record { name = "cfg"; type = "configMap"; source = "default-app" } ∷ []
unfolding translate_pod
host_volumes = refl

translate_pod-IsIsolated_example : IsIsolated opts host_pod
translate_pod-IsIsolated_example = translate_pod-IsIsolated pod opts

translate_pod-resource_refs_example :
    let t = translate_pod pod opts in
    (resources_named t.target_pod.volumes ≡ map synced_as (resource_refs t))
    × (resources_named pod.volumes ≡ map synced_from (resource_refs t))
translate_pod-resource_refs_example = translate_pod-resource_refs pod opts

cfg_elsewhere :
    Any (λ (v : Volume). (v.name ≡ "cfg") × (v.type ≡ volume_projected)) pod.volumes
    → ◌≡◌ {A = String} "/etc/app" service_account_path
cfg_elsewhere found = ground (arith, eq_iff "token" "cfg", eq_iff "configMap" volume_projected)

translate_pod-IsWellMounted_example : IsWellMounted host_pod
translate_pod-IsWellMounted_example =
    translate_pod-IsWellMounted pod opts ((inl refl, (inr (inl refl), tt)), tt)
      ((λ _. refl, (cfg_elsewhere, tt)), tt)

abbrev stray : PodSpec
stray = pod_with "default" "web" (mount "token" "/tokens" ∷ [])

translate_pod-injective_example : (pod.namespace ≡ pod.namespace) × (pod.name ≡ pod.name)
translate_pod-injective_example =
    translate_pod-injective pod pod opts (omega arith) (omega arith) refl
