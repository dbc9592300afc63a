-- ===== src/Service/Execution/Compare.antt =====
-- internal/domain/service/execution_service.go: `podSpecsEqual` and the comparisons that it calls.
pub mod Laws
use vnode.Base.{
  String, Bool, true, false, not, ◌&&◌, ◌||◌, Option, none, some, List, [], ◌∷◌, length, ◌==◌, eqb,
  if◌then◌else◌,
}
use vnode.Base.Map.{Map, get}
use vnode.Model.Resource.{resources_eq}
use vnode.Model.Pod.{EnvVar, Volume, VolumeMount, ContainerResources, Container, PodSpec}

unfoldable pub bools_eq : Bool → Bool → Bool
bools_eq true b = b
bools_eq false b = not b

unfoldable pub bool_ptr_equal : Option Bool → Option Bool → Bool
unfolding bools_eq
bool_ptr_equal none none = true
bool_ptr_equal none (some b) = false
bool_ptr_equal (some a) none = false
bool_ptr_equal (some a) (some b) = bools_eq a b

unfoldable pub normalize_service_account : String → String
normalize_service_account name = if name == "" then "default" else name

-- The loop of `stringMapEqual`, over the entries of `a`.
unfoldable pub values_equal : Map String → Map String → Bool
values_equal [] b = true
values_equal ((key, value) ∷ a) b =
    let rest = values_equal a b in if not (get key b == value) then false else rest

unfoldable pub string_map_equal : Map String → Map String → Bool
unfolding values_equal
string_map_equal a b =
    if eqb (length a) 0 && eqb (length b) 0
    then true
    else if not (eqb (length a) (length b))
    then false
    else values_equal a b

module _ {A : Type 0} (same : A → A → Bool) where
  -- The loops over two slices of one length.
  unfoldable pub items_equal : List A → List A → Bool
  items_equal [] b = true
  items_equal (x ∷ a) [] = false
  items_equal (x ∷ a) (y ∷ b) = let rest = items_equal a b in if not (same x y) then false else rest

  -- What the comparisons of slices have in common.
  unfoldable pub slices_equal : List A → List A → Bool
  unfolding items_equal
  slices_equal a b = if not (eqb (length a) (length b)) then false else items_equal a b

-- `a == b` on the structs.
unfoldable pub volume_eq : Volume → Volume → Bool
volume_eq a b = (a.name == b.name) && ((a.type == b.type) && (a.source == b.source))

unfoldable pub env_var_eq : EnvVar → EnvVar → Bool
env_var_eq a b = (a.name == b.name) && (a.value == b.value)

unfoldable pub volume_mount_eq : VolumeMount → VolumeMount → Bool
unfolding bools_eq
volume_mount_eq a b =
    (a.name == b.name) && ((a.mount_path == b.mount_path) && bools_eq a.read_only b.read_only)

unfoldable pub container_resources_eq : ContainerResources → ContainerResources → Bool
unfolding resources_eq
container_resources_eq a b = resources_eq a.requests b.requests && resources_eq a.limits b.limits

unfoldable pub volumes_equal : List Volume → List Volume → Bool
unfolding slices_equal volume_eq
volumes_equal = slices_equal volume_eq

unfoldable pub string_slice_equal : List String → List String → Bool
unfolding slices_equal
string_slice_equal = slices_equal (λ a b. a == b)

unfoldable pub env_vars_equal : List EnvVar → List EnvVar → Bool
unfolding slices_equal env_var_eq
env_vars_equal = slices_equal env_var_eq

unfoldable pub volume_mounts_equal : List VolumeMount → List VolumeMount → Bool
unfolding slices_equal volume_mount_eq
volume_mounts_equal = slices_equal volume_mount_eq

-- One round of the loop of `containersEqual`.
unfoldable pub container_equal : Container → Container → Bool
unfolding string_slice_equal env_vars_equal volume_mounts_equal container_resources_eq
container_equal a b =
    if not (a.name == b.name) || not (a.image == b.image)
    then false
    else if not (string_slice_equal a.command b.command) || not (string_slice_equal a.args b.args)
    then false
    else if not (env_vars_equal a.env b.env)
        || not (volume_mounts_equal a.volume_mounts b.volume_mounts)
    then false
    else if not (container_resources_eq a.resources b.resources)
    then false
    else true

unfoldable pub containers_equal : List Container → List Container → Bool
unfolding slices_equal container_equal
containers_equal = slices_equal container_equal

unfoldable pub pod_specs_equal : PodSpec → PodSpec → Bool
unfolding normalize_service_account bool_ptr_equal string_map_equal containers_equal volumes_equal
pod_specs_equal a b =
    (a.name == b.name)
    && ((a.namespace == b.namespace)
        && ((normalize_service_account a.service_account_name
              == normalize_service_account b.service_account_name)
            && (bool_ptr_equal a.automount_service_account_token b.automount_service_account_token
                && ((a.runtime_class_name == b.runtime_class_name)
                    && (string_map_equal a.labels b.labels
                        && (string_map_equal a.node_selector b.node_selector
                            && (containers_equal a.containers b.containers
                                && volumes_equal a.volumes b.volumes)))))))
