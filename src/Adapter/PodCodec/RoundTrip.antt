-- ===== src/Adapter/PodCodec/RoundTrip.antt =====
-- Pods written to the API and read back.
use vnode.Base.{
  inl, inr, ◌≡◌, ◌≢◌, ◌⊎◌, refl, ap, sym, ◌∙◌, String, false, List, [], ◌∷◌, All, arith, eq_iff,
}
use vnode.Base.Int.{pos}
use vnode.Model.Resource.{ResourceList}
use vnode.Model.Pod.{
  EnvVar, Volume, VolumeMount, Container, PodSpec, volume_projected, volume_config_map,
  volume_secret, volume_empty_dir, volume_pvc, volume_host_path, volume_other,
}
use vnode.Kube.{Quantities}
use vnode.Adapter.PodCodec.{
  env_from_k8s, volume_mounts_from_k8s, volume_from_k8s, volumes_from_k8s, resource_list_from_k8s,
  containers_from_k8s, env_to_k8s, volume_mounts_to_k8s, string_ptr_or_nil, volume_to_k8s,
  volumes_to_k8s, resource_list_to_k8s, containers_to_k8s, pod_spec_to_k8s_pod, pod_to_spec,
}

env_back : (env : List EnvVar) → env_from_k8s (env_to_k8s env) ≡ env
unfolding env_from_k8s env_to_k8s
env_back [] = refl
env_back (item ∷ env) = ap (λ xs. item ∷ xs) (env_back env)

mounts_back : (m : List VolumeMount) → volume_mounts_from_k8s (volume_mounts_to_k8s m) ≡ m
unfolding volume_mounts_from_k8s volume_mounts_to_k8s
mounts_back [] = refl
mounts_back (mount ∷ m) = ap (λ xs. mount ∷ xs) (mounts_back m)

-- A volume whose type and source the API can tell apart.
pub record IsExpressible (v : Volume) : Type 0 where
  pub known :
      (v.type ≡ volume_config_map)
      ⊎ (v.type ≡ volume_secret)
      ⊎ (v.type ≡ volume_pvc)
      ⊎ (v.type ≡ volume_host_path)
      ⊎ (v.type ≡ volume_empty_dir)
      ⊎ (v.type ≡ volume_projected)
      ⊎ (v.type ≡ volume_other)
  pub sourceless :
      (v.type ≡ volume_empty_dir) ⊎ (v.type ≡ volume_projected) ⊎ (v.type ≡ volume_other)
      → v.source ≡ ""

-- The claim of a volume of the type and the source, for one that is equal to it.
typed_back :
    (v : Volume) (type source : String)
    → v.type ≡ type
    → v.source ≡ source
    → volume_from_k8s (volume_to_k8s (record { name = v.name; type = type; source = source }))
      ≡ record { name = v.name; type = type; source = source }
    → volume_from_k8s (volume_to_k8s v) ≡ v
typed_back v type source e f back =
    let same : record { name = v.name; type = type; source = source } ≡ v = cc in
    ap (λ w. volume_from_k8s (volume_to_k8s w)) (sym same) ∙ back ∙ same

volume_back : (v : Volume) → IsExpressible v → volume_from_k8s (volume_to_k8s v) ≡ v
unfolding volume_from_k8s volume_to_k8s
volume_back v x = elim x.known [
  | inl e ↦ typed_back v volume_config_map v.source e refl refl
  | inr (inl e) ↦ typed_back v volume_secret v.source e refl refl
  | inr (inr (inl e)) ↦ typed_back v volume_pvc v.source e refl refl
  | inr (inr (inr (inl e))) ↦ typed_back v volume_host_path v.source e refl refl
  | inr (inr (inr (inr (inl e)))) ↦ typed_back v volume_empty_dir "" e (x.sourceless (inl e)) refl
  | inr (inr (inr (inr (inr (inl e))))) ↦
      typed_back v volume_projected "" e (x.sourceless (inr (inl e))) refl
  | inr (inr (inr (inr (inr (inr e))))) ↦
      typed_back v volume_other "" e (x.sourceless (inr (inr e))) refl
]

volumes_back : (vs : List Volume) → All IsExpressible vs → volumes_from_k8s (volumes_to_k8s vs) ≡ vs
unfolding volumes_from_k8s volumes_to_k8s
volumes_back [] xs = refl
volumes_back (v ∷ vs) (x, xs) = cc (volume_back v x, volumes_back vs xs)

module _ {Q : Type 0} (quantities : Quantities Q) where
  -- The text is empty, or that of the quantity that it denotes.
  abbrev pub IsCanonical : String → Type 0
  IsCanonical text = text ≢ "" → quantities.string (quantities.must_parse text) ≡ text

  resources_back :
      (r : ResourceList)
      → IsCanonical r.cpu
      → IsCanonical r.memory
      → r.pods ≡ pos 0
      → resource_list_from_k8s quantities (resource_list_to_k8s quantities r) ≡ r
  unfolding resource_list_from_k8s resource_list_to_k8s
  resources_back r c m p = ground (arith, eq_iff r.cpu "", eq_iff r.memory "", c, m, p)

  pub record IsPlain (c : Container) : Type 0 where
    pub cpu_request : IsCanonical c.resources.requests.cpu
    pub memory_request : IsCanonical c.resources.requests.memory
    pub cpu_limit : IsCanonical c.resources.limits.cpu
    pub memory_limit : IsCanonical c.resources.limits.memory
    pub no_pods : (c.resources.requests.pods ≡ pos 0) × (c.resources.limits.pods ≡ pos 0)

  containers_back :
      (cs : List Container)
      → All IsPlain cs
      → containers_from_k8s quantities (containers_to_k8s quantities cs) ≡ cs
  unfolding containers_from_k8s containers_to_k8s
  containers_back [] ps = refl
  containers_back (c ∷ cs) (p, ps) =
      let e = env_back c.env in
      let m = mounts_back c.volume_mounts in
      let q = resources_back c.resources.requests p.cpu_request p.memory_request p.no_pods.0 in
      let l = resources_back c.resources.limits p.cpu_limit p.memory_limit p.no_pods.1 in
      cc (e, m, q, l, containers_back cs ps)

  -- A pod that is written for the API and read back is what it was, if it is not being deleted, its
  -- volumes are of types and with sources that the API tells apart, and the quantities of its containers
  -- are texts that parsing and printing keep, with no number of pods.
  pub pod_to_spec-pod_spec_to_k8s_pod :
      (p : PodSpec)
      → p.deleting ≡ false
      → All IsPlain p.containers
      → All IsExpressible p.volumes
      → pod_to_spec quantities (pod_spec_to_k8s_pod quantities p) ≡ p
  unfolding pod_to_spec pod_spec_to_k8s_pod string_ptr_or_nil
  pod_to_spec-pod_spec_to_k8s_pod p d cs vs =
      let c = containers_back p.containers cs in
      let v = volumes_back p.volumes vs in ground (arith, c, v, d, eq_iff p.runtime_class_name "")
