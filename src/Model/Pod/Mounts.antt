-- ===== src/Model/Pod/Mounts.antt =====
-- Whether each mount of a host pod names a volume that the pod has.
use vnode.Base.{
  sym, ◌∙◌, ◌≡◌, ◌≢◌, String, false, inl, inr, List, [], ◌∷◌, All, Any, arith, eq_iff, Bool-cases,
  ◌==◌,
}
use vnode.Model.Pod.{
  PodSpec, Container, Volume, VolumeMount, TranslateOpts, volume_projected, service_account_path,
  is_service_account_mount, strip_mounts, translate_containers, filter_volumes, namespace_source,
  translate_pod,
}

abbrev Named : String → Volume → Type 0
Named n v = v.name ≡ n

abbrev NamesProjected : String → Volume → Type 0
NamesProjected n v = (v.name ≡ n) × (v.type ≡ volume_projected)

-- Each mount of each container names a volume of the pod.
abbrev MountsFound : List Volume → List VolumeMount → Type 0
MountsFound vs = All (λ (m : VolumeMount). Any (Named m.name) vs)

abbrev pub IsWellMounted : PodSpec → Type 0
IsWellMounted pod = All (λ (c : Container). MountsFound pod.volumes c.volume_mounts) pod.containers

-- Projected volumes are mounted at the path of the service account tokens alone.
abbrev TokensInPlace : List Volume → List VolumeMount → Type 0
TokensInPlace vs =
    All (λ (m : VolumeMount). Any (NamesProjected m.name) vs → m.mount_path ≡ service_account_path)

abbrev pub HasTokensInPlace : PodSpec → Type 0
HasTokensInPlace pod =
    All (λ (c : Container). TokensInPlace pod.volumes c.volume_mounts) pod.containers

filter_volumes-keeps :
    (vs : List Volume) (ns n : String)
    → Any (Named n) vs
    → ¬ Any (NamesProjected n) vs
    → Any (Named n) (filter_volumes vs ns)
unfolding filter_volumes
filter_volumes-keeps [] ns n found real = elim found [ ]
filter_volumes-keeps (v ∷ vs) ns n (inl e) real = ground (arith, eq_iff v.type volume_projected)
filter_volumes-keeps (v ∷ vs) ns n (inr found) real =
    ground (arith, filter_volumes-keeps vs ns n found (λ p. real (inr p)))

elsewhere :
    (m : VolumeMount) → is_service_account_mount m ≡ false → m.mount_path ≢ service_account_path
unfolding is_service_account_mount
elsewhere m other = ground (arith, eq_iff m.mount_path service_account_path)

strip_mounts-MountsFound :
    (vs : List Volume) (ns : String) (ms : List VolumeMount)
    → MountsFound vs ms
    → TokensInPlace vs ms
    → MountsFound (filter_volumes vs ns) (strip_mounts ms)
unfolding strip_mounts
strip_mounts-MountsFound vs ns [] found placed = tt
strip_mounts-MountsFound vs ns (m ∷ ms) (found, rest) (placed, others) =
    let ih = strip_mounts-MountsFound vs ns ms rest others in
    elim (Bool-cases (is_service_account_mount m)) [
      | inl token ↦ rw token ih
      | inr other ↦
          rw other (filter_volumes-keeps vs ns m.name found (λ p. elsewhere m other (placed p)), ih)
    ]

translate_containers-MountsFound :
    (vs : List Volume) (ns : String) (cs : List Container)
    → All (λ (c : Container). MountsFound vs c.volume_mounts) cs
    → All (λ (c : Container). TokensInPlace vs c.volume_mounts) cs
    → All
        (λ (c : Container). MountsFound (filter_volumes vs ns) c.volume_mounts)
        (translate_containers cs)
unfolding translate_containers
translate_containers-MountsFound vs ns [] found placed = tt
translate_containers-MountsFound vs ns (c ∷ cs) (found, rest) (placed, others) = (
  strip_mounts-MountsFound vs ns c.volume_mounts found placed,
  translate_containers-MountsFound vs ns cs rest others,
)

-- If each mount of the tenant's pod names one of its volumes, and projected volumes are mounted at the
-- path of the service account tokens alone, then each mount of the translated pod names one of the
-- translated pod's volumes.
pub translate_pod-IsWellMounted :
    (source : PodSpec) (opts : TranslateOpts)
    → IsWellMounted source
    → HasTokensInPlace source
    → IsWellMounted (translate_pod source opts).target_pod
unfolding translate_pod
translate_pod-IsWellMounted source opts found placed =
    translate_containers-MountsFound source.volumes source.namespace source.containers found placed

namespace_source-name : (ns : String) (v : Volume) → (namespace_source ns v).name ≡ v.name
namespace_source-name ns v = ground arith

filter_volumes-drops :
    (vs : List Volume) (ns n : String)
    → All (λ (v : Volume). v.name ≡ n → v.type ≡ volume_projected) vs
    → ¬ Any (Named n) (filter_volumes vs ns)
unfolding filter_volumes
filter_volumes-drops [] ns n only found = found
filter_volumes-drops (v ∷ vs) ns n (here, only) found =
    let ih = filter_volumes-drops vs ns n only in
    elim (Bool-cases (v.type == volume_projected)) [
      | inl gone ↦ ih (rw gone at found)
      | inr kept ↦ elim (rw kept at found) [
        | inl e ↦ cc ((eq_iff _ _).1 (here (sym (namespace_source-name ns v) ∙ e)))
        | inr later ↦ ih later
      ]
    ]

strip_mounts-keeps :
    (vs : List Volume) (m : VolumeMount) (ms : List VolumeMount)
    → m.mount_path ≢ service_account_path
    → MountsFound vs (strip_mounts (m ∷ ms))
    → Any (Named m.name) vs
unfolding strip_mounts is_service_account_mount
strip_mounts-keeps vs m ms other found = elim (Bool-cases (m.mount_path == service_account_path)) [
  | inl token ↦ absurd (other ((eq_iff _ _).0 token))
  | inr kept ↦ (rw kept at found).0
]

-- A pod whose first container mounts a projected volume elsewhere, no other volume having that
-- volume's name, is translated into a pod with a mount that names no volume of it.
pub translate_pod-dangles :
    (source : PodSpec) (opts : TranslateOpts) (c : Container) (cs : List Container)
    (m : VolumeMount) (ms : List VolumeMount)
    → source.containers ≡ c ∷ cs
    → c.volume_mounts ≡ m ∷ ms
    → m.mount_path ≢ service_account_path
    → All (λ (v : Volume). v.name ≡ m.name → v.type ≡ volume_projected) source.volumes
    → ¬ IsWellMounted (translate_pod source opts).target_pod
unfolding translate_pod translate_containers
translate_pod-dangles source opts c cs m ms e f other only found =
    filter_volumes-drops source.volumes source.namespace m.name only
      (strip_mounts-keeps _ m ms other (rw f at (rw e at found).0))
