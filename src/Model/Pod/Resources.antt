-- ===== src/Model/Pod/Resources.antt =====
-- The ConfigMaps and Secrets that a host pod names are those that are synced for it.
use vnode.Base.{
  All, ◌⊎◌, inl, inr, true, Bool-cases, ◌<>◌, ◌≡◌, refl, String, List, [], ◌∷◌, map, arith, eq_iff,
  if◌then◌else◌,
}
use vnode.Model.Pod.{
  PodSpec, PodTranslation, Volume, VolumeType, VolumeResourceRef, TranslateOpts, volume_projected,
  volume_config_map, volume_secret, is_resource, filter_volumes, refs_of, translate_pod,
  resource_refs,
}

-- The kind and the name of each ConfigMap and Secret that a list of volumes names.
unfoldable pub resources_named : List Volume → List (VolumeType × String)
resources_named [] = []
resources_named (v ∷ vs) =
    let rest = resources_named vs in if is_resource v then (v.type, v.source) ∷ rest else rest

abbrev pub synced_as : VolumeResourceRef → VolumeType × String
synced_as r = (r.type, r.target_name)

abbrev pub synced_from : VolumeResourceRef → VolumeType × String
synced_from r = (r.type, r.source_name)

resources_named-filter_volumes :
    (vs : List Volume) (ns : String)
    → resources_named (filter_volumes vs ns) ≡ map synced_as (refs_of ns vs)
unfolding resources_named filter_volumes refs_of
resources_named-filter_volumes [] ns = refl
resources_named-filter_volumes (v ∷ vs) ns = ground (
  arith,
  eq_iff v.type volume_projected,
  eq_iff v.type volume_config_map,
  eq_iff v.type volume_secret,
  eq_iff volume_projected volume_config_map,
  eq_iff volume_projected volume_secret,
  resources_named-filter_volumes vs ns,
)

resources_named-refs_of :
    (vs : List Volume) (ns : String) → resources_named vs ≡ map synced_from (refs_of ns vs)
unfolding resources_named refs_of
resources_named-refs_of [] ns = refl
resources_named-refs_of (v ∷ vs) ns = ground (arith, resources_named-refs_of vs ns)

-- A reference of a pod of a namespace: of either kind, with the name of its copy from its own.
pub record IsRef (ns : String) (r : VolumeResourceRef) : Type 0 where
  pub kind : (r.type ≡ volume_config_map) ⊎ (r.type ≡ volume_secret)
  pub from : r.source_namespace ≡ ns
  pub to : r.target_name ≡ ns <> ("-" <> r.source_name)

is_resource-kind :
    (v : Volume) → is_resource v ≡ true → (v.type ≡ volume_config_map) ⊎ (v.type ≡ volume_secret)
is_resource-kind v h =
    ground (arith, eq_iff v.type volume_config_map, eq_iff v.type volume_secret, h)

refs_of-IsRef : (vs : List Volume) (ns : String) → All (IsRef ns) (refs_of ns vs)
unfolding refs_of
refs_of-IsRef [] ns = tt
refs_of-IsRef (v ∷ vs) ns = elim (Bool-cases (is_resource v)) [
  | inl named ↦
      rw named
        (record { kind = is_resource-kind v named; from = refl; to = refl }, refs_of-IsRef vs ns)
  | inr other ↦ rw other (refs_of-IsRef vs ns)
]

pub resource_refs-IsRef :
    (t : PodTranslation) → All (IsRef t.source_pod.namespace) (resource_refs t)
unfolding resource_refs
resource_refs-IsRef t = refs_of-IsRef t.source_pod.volumes t.source_pod.namespace

-- The ConfigMaps and Secrets that the host pod's volumes name are, one by one and in order, the targets
-- of the references that are synced, and those of the tenant's pod are the sources.
pub translate_pod-resource_refs :
    (source : PodSpec) (opts : TranslateOpts)
    → let t = translate_pod source opts in
      (resources_named t.target_pod.volumes ≡ map synced_as (resource_refs t))
      × (resources_named source.volumes ≡ map synced_from (resource_refs t))
unfolding translate_pod resource_refs
translate_pod-resource_refs source opts = (
  resources_named-filter_volumes source.volumes source.namespace,
  resources_named-refs_of source.volumes source.namespace,
)
