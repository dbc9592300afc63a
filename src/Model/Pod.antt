-- ===== src/Model/Pod.antt =====
-- internal/domain/model/pod.go: the translation of a tenant's pod into a pod of the host cluster.
pub mod Isolation
pub mod Labels
pub mod Keys
pub mod Resources
pub mod Mounts
pub mod Collisions
use vnode.Base.{
  ℕ, String, ◌<>◌, Bool, true, false, ◌||◌, Option, none, some, List, [], ◌∷◌, is_some, ◌==◌,
  if◌then◌else◌,
}
use vnode.Base.Int.{ℤ}
use vnode.Base.Map.{Map, lookup, insert}
use vnode.Model.Resource.{ResourceList}

abbrev pub VolumeType : Type 0
VolumeType = String

abbrev pub volume_projected : VolumeType
volume_projected = "projected"

abbrev pub volume_config_map : VolumeType
volume_config_map = "configMap"

abbrev pub volume_secret : VolumeType
volume_secret = "secret"

abbrev pub volume_empty_dir : VolumeType
volume_empty_dir = "emptyDir"

abbrev pub volume_pvc : VolumeType
volume_pvc = "pvc"

abbrev pub volume_host_path : VolumeType
volume_host_path = "hostPath"

abbrev pub volume_other : VolumeType
volume_other = "other"

pub record EnvVar : Type 0 where
  pub name : String
  pub value : String

pub record Volume : Type 0 where
  pub name : String
  pub type : VolumeType
  pub source : String

pub record VolumeMount : Type 0 where
  pub name : String
  pub mount_path : String
  pub read_only : Bool

pub record ContainerResources : Type 0 where
  pub requests : ResourceList
  pub limits : ResourceList

pub record Container : Type 0 where
  pub name : String
  pub image : String
  pub command : List String
  pub args : List String
  pub env : List EnvVar
  pub volume_mounts : List VolumeMount
  pub resources : ContainerResources

pub record PodSpec : Type 0 where
  pub name : String
  pub namespace : String
  pub labels : Map String
  pub node_name : String
  pub containers : List Container
  pub volumes : List Volume
  pub service_account_name : String
  pub automount_service_account_token : Option Bool
  pub runtime_class_name : String
  pub node_selector : Map String
  pub deleting : Bool

pub record ContainerStatus : Type 0 where
  pub name : String
  pub ready : Bool
  pub restart_count : ℤ
  pub state : String

pub record PodStatus : Type 0 where
  pub phase : String
  pub pod_ip : String
  pub container_statuses : List ContainerStatus
  pub message : String
  pub reason : String

pub record PodTranslation : Type 0 where
  pub source_pod : PodSpec
  pub target_pod : PodSpec

abbrev pub label_managed_by : String
label_managed_by = "app.kubernetes.io/managed-by"

abbrev pub label_managed_by_value : String
label_managed_by_value = "kroderdev-vnode"

abbrev pub label_vnode_pool : String
label_vnode_pool = "vnode.kroderdev.io/pool"

abbrev pub label_vnode_name : String
label_vnode_name = "vnode.kroderdev.io/node-name"

abbrev pub label_source_pod_name : String
label_source_pod_name = "vnode.kroderdev.io/source-pod-name"

abbrev pub label_source_pod_ns : String
label_source_pod_ns = "vnode.kroderdev.io/source-pod-namespace"

pub record TranslateOpts : Type 0 where
  pub vnode_name : String
  pub pool_name : String
  pub target_namespace : String
  pub runtime_class : String
  pub node_selector : Map String

abbrev pub service_account_path : String
service_account_path = "/var/run/secrets/kubernetes.io/serviceaccount"

unfoldable pub is_service_account_mount : VolumeMount → Bool
is_service_account_mount vm = vm.mount_path == service_account_path

-- The inner loop of `translateContainers`.
strip_mounts : List VolumeMount → List VolumeMount
unfolding is_service_account_mount
strip_mounts [] = []
strip_mounts (vm ∷ vms) =
    let rest = strip_mounts vms in if is_service_account_mount vm then rest else vm ∷ rest

unfoldable pub translate_containers : List Container → List Container
unfolding strip_mounts
translate_containers [] = []
translate_containers (c ∷ cs) =
    record c { volume_mounts = strip_mounts c.volume_mounts } ∷ translate_containers cs

-- `v.Type == VolumeTypeConfigMap || v.Type == VolumeTypeSecret`
abbrev pub is_resource : Volume → Bool
is_resource v = (v.type == volume_config_map) || (v.type == volume_secret)

abbrev namespace_source : String → Volume → Volume
namespace_source ns v = if is_resource v then record v { source = ns <> ("-" <> v.source) } else v

unfoldable pub filter_volumes : List Volume → String → List Volume
filter_volumes [] ns = []
filter_volumes (v ∷ vs) ns =
    let rest = filter_volumes vs ns in
    if v.type == volume_projected then rest else namespace_source ns v ∷ rest

abbrev pub vnode_labels : PodSpec → TranslateOpts → Map String
vnode_labels source opts =
    (label_managed_by, label_managed_by_value)
    ∷ (label_vnode_pool, opts.pool_name)
    ∷ (label_vnode_name, opts.vnode_name)
    ∷ (label_source_pod_name, source.name)
    ∷ (label_source_pod_ns, source.namespace)
    ∷ []

-- The loop that copies the labels of the source, which never overwrites a label.
copy_labels : Map String → Map String → Map String
copy_labels [] target = target
copy_labels ((k, v) ∷ labels) target =
    copy_labels labels (if is_some (lookup k target) then target else insert k v target)

abbrev pub target_name : String → String → String → String
target_name vnode_name ns name = vnode_name <> ("-" <> (ns <> ("-" <> name)))

unfoldable pub translate_pod : PodSpec → TranslateOpts → PodTranslation
unfolding translate_containers filter_volumes copy_labels
translate_pod source opts = record {
  source_pod = source;
  target_pod = record {
    name = target_name opts.vnode_name source.namespace source.name;
    namespace = opts.target_namespace;
    labels = copy_labels source.labels (vnode_labels source opts);
    node_name = "";
    containers = translate_containers source.containers;
    volumes = filter_volumes source.volumes source.namespace;
    service_account_name = "";
    automount_service_account_token = some false;
    runtime_class_name = opts.runtime_class;
    node_selector = opts.node_selector;
    deleting = false;
  };
}

pub record VolumeResourceRef : Type 0 where
  pub type : VolumeType
  pub source_name : String
  pub source_namespace : String
  pub target_name : String

-- The loop of `ResourceRefs`.
refs_of : String → List Volume → List VolumeResourceRef
refs_of ns [] = []
refs_of ns (sv ∷ svs) =
    let rest = refs_of ns svs in
    if is_resource sv
    then record {
      type = sv.type;
      source_name = sv.source;
      source_namespace = ns;
      target_name = ns <> ("-" <> sv.source);
    }
      ∷ rest
    else rest

unfoldable pub resource_refs : PodTranslation → List VolumeResourceRef
unfolding refs_of
resource_refs t = refs_of t.source_pod.namespace t.source_pod.volumes
