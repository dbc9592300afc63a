-- ===== src/Service/Execution/Compare/Laws.antt =====
-- What the comparisons of pods decide.
use vnode.Base.{
  ◌≡◌, refl, sym, ap, ◌∙◌, ◌↔◌, ◌⊎◌, ◌≢◌, String, Bool, true, false, Option, some, List, [], ◌∷◌,
  length, arith, eq_iff, eq_refl, ◌==◌,
}
use vnode.Base.Int.{eqb_ℤ_sound, eqb_ℤ_refl}
use vnode.Base.Map.{Map, get, lookup, NodupKeys}
use vnode.Model.Resource.{resources_eq}
use vnode.Model.Pod.{PodSpec}
use vnode.Service.Execution.Compare.{
  bools_eq, bool_ptr_equal, normalize_service_account, values_equal, string_map_equal, items_equal,
  slices_equal, volume_eq, env_var_eq, volume_mount_eq, container_resources_eq, volumes_equal,
  string_slice_equal, env_vars_equal, volume_mounts_equal, container_equal, containers_equal,
  pod_specs_equal,
}

-- The test decides equality.
abbrev pub Decides : {A : Type 0} → (A → A → Bool) → Type 0
Decides {A} same = (a b : A) → same a b ≡ true ↔ a ≡ b

module _ {A : Type 0} (same : A → A → Bool) (decides : Decides same) where
  items_equal_sound : (a b : List A) → length a ≡ length b → items_equal same a b ≡ true → a ≡ b
  unfolding items_equal
  items_equal_sound [] [] l h = refl
  items_equal_sound [] (y ∷ b) l h = ground arith
  items_equal_sound (x ∷ a) [] l h = ground arith
  items_equal_sound (x ∷ a) (y ∷ b) l h = ground (arith, items_equal_sound a b, (decides x y).0)

  items_equal_refl : (a : List A) → items_equal same a a ≡ true
  unfolding items_equal
  items_equal_refl [] = refl
  items_equal_refl (x ∷ a) = rw ((decides x x).1 refl) (items_equal_refl a)

  slices_equal_refl : (a : List A) → slices_equal same a a ≡ true
  unfolding slices_equal
  slices_equal_refl a = ground (arith, items_equal_refl a)

  slices_equal-Decides : Decides (slices_equal same)
  unfolding slices_equal
  slices_equal-Decides a b = (
    λ h. ground (arith, items_equal_sound a b),
    λ e. ap (slices_equal same a) (sym e) ∙ slices_equal_refl a,
  )

string_eq-Decides : Decides {A = String} (λ a b. a == b)
string_eq-Decides a b = eq_iff a b

volume_eq-Decides : Decides volume_eq
unfolding volume_eq
volume_eq-Decides a b = (
  λ h. ground (arith, eq_iff a.name b.name, eq_iff a.type b.type, eq_iff a.source b.source),
  λ e. ground (arith, eq_iff a.name b.name, eq_iff a.type b.type, eq_iff a.source b.source),
)

env_var_eq-Decides : Decides env_var_eq
unfolding env_var_eq
env_var_eq-Decides a b = (
  λ h. ground (arith, eq_iff a.name b.name, eq_iff a.value b.value),
  λ e. ground (arith, eq_iff a.name b.name, eq_iff a.value b.value),
)

volume_mount_eq-Decides : Decides volume_mount_eq
unfolding volume_mount_eq bools_eq
volume_mount_eq-Decides a b = (
  λ h. ground (arith, eq_iff a.name b.name, eq_iff a.mount_path b.mount_path),
  λ e. ground (arith, eq_iff a.name b.name, eq_iff a.mount_path b.mount_path),
)

resources_eq-Decides : Decides resources_eq
unfolding resources_eq
resources_eq-Decides a b = (
  λ h. ground (arith, eq_iff a.cpu b.cpu, eq_iff a.memory b.memory, eqb_ℤ_sound a.pods b.pods),
  λ e. ap (resources_eq a) (sym e) ∙ rw (eq_refl a.cpu, eq_refl a.memory, eqb_ℤ_refl a.pods),
)

container_resources_eq-Decides : Decides container_resources_eq
unfolding container_resources_eq
container_resources_eq-Decides a b = (
  λ h. ground (
    arith,
    (resources_eq-Decides a.requests b.requests).0,
    (resources_eq-Decides a.limits b.limits).0,
  ),
  λ e. ground (
    arith,
    (resources_eq-Decides a.requests b.requests).1,
    (resources_eq-Decides a.limits b.limits).1,
  ),
)

volumes_equal-Decides : Decides volumes_equal
unfolding volumes_equal
volumes_equal-Decides = slices_equal-Decides volume_eq volume_eq-Decides

container_equal-Decides : Decides container_equal
unfolding container_equal string_slice_equal env_vars_equal volume_mounts_equal
container_equal-Decides a b =
    let n = eq_iff a.name b.name in
    let i = eq_iff a.image b.image in
    let c = slices_equal-Decides _ string_eq-Decides a.command b.command in
    let g = slices_equal-Decides _ string_eq-Decides a.args b.args in
    let v = slices_equal-Decides _ env_var_eq-Decides a.env b.env in
    let m = slices_equal-Decides _ volume_mount_eq-Decides a.volume_mounts b.volume_mounts in
    let r = container_resources_eq-Decides a.resources b.resources in
    (λ h. ground (arith, n, i, c, g, v, m, r), λ e. ground (arith, n, i, c, g, v, m, r))

-- `containersEqual` answers true exactly on equal lists of containers, compared field by field, in order.
pub containers_equal-Decides : Decides containers_equal
unfolding containers_equal
containers_equal-Decides = slices_equal-Decides container_equal container_equal-Decides

eq_no : (a b : String) → a ≢ b → (a == b) ≡ false
eq_no a b d = ground (arith, eq_iff a b)

values_equal_refl :
    (a b : Map String)
    → ((key value : String) → lookup key a ≡ some value → lookup key b ≡ some value)
    → NodupKeys a
    → values_equal a b ≡ true
unfolding values_equal
values_equal_refl [] b inside d = refl
values_equal_refl ((k, v) ∷ a) b inside (d, fresh) =
    let found = inside k v (rw (eq_refl k) refl) in
    let later =
      values_equal_refl a b (λ key value h. inside key value (ground (arith, eq_iff key k, fresh)))
        d in
    let value_there : get k b ≡ v = rw (get, found) refl in rw (value_there, eq_refl v) later

get_other : (key other v : String) → key ≢ other → get key ((other, v) ∷ []) ≡ ""
get_other key other v d = rw (get, eq_no key other d) refl

pub string_map_equal_refl : (a : Map String) → NodupKeys a → string_map_equal a a ≡ true
unfolding string_map_equal
string_map_equal_refl a d = ground (arith, values_equal_refl a a (λ _ _ h. h) d)

-- A service account as it is read back: an empty name may have become that of the default account.
abbrev pub IsFilled : (made found : String) → Type 0
IsFilled made found = (found ≡ made) ⊎ ((made ≡ "") × (found ≡ "default"))

-- A pod whose maps name no key twice equals itself, also after its service account was filled in
-- and it was bound to a node.
pub pod_specs_equal_filled :
    (p : PodSpec) (account node : String)
    → NodupKeys p.labels
    → NodupKeys p.node_selector
    → IsFilled p.service_account_name account
    → pod_specs_equal (record p { service_account_name = account; node_name = node }) p ≡ true
unfolding pod_specs_equal bool_ptr_equal bools_eq normalize_service_account
pod_specs_equal_filled p account node d e filled = ground (
  arith,
  filled,
  eq_refl p.name,
  eq_refl p.namespace,
  eq_refl (normalize_service_account p.service_account_name),
  eq_iff p.service_account_name "",
  eq_iff account "",
  eq_refl account,
  eq_refl p.service_account_name,
  eq_refl "default",
  eq_iff "default" "",
  eq_refl p.runtime_class_name,
  string_map_equal_refl p.labels d,
  string_map_equal_refl p.node_selector e,
  (containers_equal-Decides p.containers p.containers).1 refl,
  (volumes_equal-Decides p.volumes p.volumes).1 refl,
)

-- What a host pod that is left alone has in common with the pod that is wanted.
pub record Agrees (current pod : PodSpec) : Type 0 where
  pub name : current.name ≡ pod.name
  pub namespace : current.namespace ≡ pod.namespace
  pub automount : current.automount_service_account_token ≡ pod.automount_service_account_token
  pub runtime_class : current.runtime_class_name ≡ pod.runtime_class_name
  pub containers : current.containers ≡ pod.containers
  pub volumes : current.volumes ≡ pod.volumes

bool_ptr_equal_sound : (a b : Option Bool) → bool_ptr_equal a b ≡ true → a ≡ b
unfolding bool_ptr_equal bools_eq
bool_ptr_equal_sound a b h = ground arith

-- If `podSpecsEqual` answers true, the pods agree in name, namespace, automount setting, runtime class,
-- containers and volumes.
pub pod_specs_equal-Agrees : (a b : PodSpec) → pod_specs_equal a b ≡ true → Agrees a b
unfolding pod_specs_equal
pod_specs_equal-Agrees a b h = record {
  name = ground (arith, eq_iff a.name b.name);
  namespace = ground (arith, eq_iff a.namespace b.namespace);
  automount = ground (
    arith,
    bool_ptr_equal_sound a.automount_service_account_token b.automount_service_account_token,
  );
  runtime_class = ground (arith, eq_iff a.runtime_class_name b.runtime_class_name);
  containers = ground (arith, containers_equal-Decides a.containers b.containers);
  volumes = ground (arith, volumes_equal-Decides a.volumes b.volumes);
}

-- A map whose one value is empty equals a map of another key and a value that is not empty; with the
-- maps swapped, `stringMapEqual` answers false.
pub string_map_equal_swapped :
    (x y v : String)
    → x ≢ y
    → v ≢ ""
    → (string_map_equal ((x, "") ∷ []) ((y, v) ∷ []) ≡ true)
      × (string_map_equal ((y, v) ∷ []) ((x, "") ∷ []) ≡ false)
unfolding string_map_equal values_equal
string_map_equal_swapped x y v d n = (
  rw (get_other x y v d) refl,
  rw (get_other y x "" (λ e. d (sym e)), eq_no "" v (λ e. n (sym e))) refl,
)
