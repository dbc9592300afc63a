-- ===== src/Model/Pod/Isolation.antt =====
-- What a translated pod lacks of the service account of its source: an account, and the volumes and mounts by
-- which its token is found.
use vnode.Base.{◌≡◌, ◌≢◌, refl, String, false, some, List, [], ◌∷◌, All, arith, eq_iff}
use vnode.Model.Pod.{
  PodSpec, Container, Volume, VolumeMount, TranslateOpts, volume_projected, service_account_path,
  strip_mounts, translate_containers, filter_volumes, translate_pod,
}

abbrev NoTokenMount : Container → Type 0
NoTokenMount c = All (λ (m : VolumeMount). m.mount_path ≢ service_account_path) c.volume_mounts

-- A host pod with no account and no automounted token, no projected volume, and no mount whose path is the
-- path of the tokens to the letter. A path below it, or one with a slash after it, is another text.
pub record IsIsolated (opts : TranslateOpts) (pod : PodSpec) : Type 0 where
  pub no_automount : pod.automount_service_account_token ≡ some false
  pub no_account : pod.service_account_name ≡ ""
  pub no_token_mount : All NoTokenMount pod.containers
  pub no_projected : All (λ (v : Volume). v.type ≢ volume_projected) pod.volumes
  pub runtime_class : pod.runtime_class_name ≡ opts.runtime_class
  pub selector : pod.node_selector ≡ opts.node_selector
  pub unscheduled : pod.node_name ≡ ""

strip_mounts_clean :
    (ms : List VolumeMount)
    → All (λ (m : VolumeMount). m.mount_path ≢ service_account_path) (strip_mounts ms)
unfolding strip_mounts
strip_mounts_clean [] = tt
strip_mounts_clean (m ∷ ms) =
    ground (arith, eq_iff m.mount_path service_account_path, strip_mounts_clean ms)

translate_containers_clean : (cs : List Container) → All NoTokenMount (translate_containers cs)
unfolding translate_containers
translate_containers_clean [] = tt
translate_containers_clean (c ∷ cs) =
    (strip_mounts_clean c.volume_mounts, translate_containers_clean cs)

filter_volumes_clean :
    (vs : List Volume) (ns : String)
    → All (λ (v : Volume). v.type ≢ volume_projected) (filter_volumes vs ns)
unfolding filter_volumes
filter_volumes_clean [] ns = tt
filter_volumes_clean (v ∷ vs) ns =
    ground (arith, eq_iff v.type volume_projected, filter_volumes_clean vs ns)

-- Every translated pod automounts no token, names no service account, has no projected volume, runs under
-- the runtime class and the node selector of the options, and is bound to no node. None of its mounts
-- has the path of the tokens to the letter; nothing is said of mounts at other spellings of that path
-- or below it.
pub translate_pod-IsIsolated :
    (source : PodSpec) (opts : TranslateOpts)
    → IsIsolated opts (translate_pod source opts).target_pod
unfolding translate_pod
translate_pod-IsIsolated source opts = record {
  no_automount = refl;
  no_account = refl;
  no_token_mount = translate_containers_clean source.containers;
  no_projected = filter_volumes_clean source.volumes source.namespace;
  runtime_class = refl;
  selector = refl;
  unscheduled = refl;
}
