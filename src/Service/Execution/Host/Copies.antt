-- ===== src/Service/Execution/Host/Copies.antt =====
-- The ConfigMaps and Secrets of a tenant that `syncPodResources` copies to the host.
use mathlib.Core.Path.{subst}
use vnode.Base.{◌≡◌, ◌⊎◌, String, true, Option, none, some, []}
use vnode.Base.Errors.{Error, ok, err, is_not_found}
use vnode.Base.Exec.{Exec, Action}
use vnode.Base.Map.{Map}
use vnode.Model.Pool.{VNodePool}
use vnode.Model.Pod.{VolumeType, VolumeResourceRef, volume_config_map, volume_secret}
use vnode.Kube.{Clientset, ConfigMap, Secret}
use vnode.Ports.{ClusterClient}
use vnode.Service.Execution.Host.{pool_labels}

-- What a ConfigMap or a Secret holds.
pub record Content : Type 0 where
  pub content : Map String
  pub binary_content : Map String

abbrev pub config_content : ConfigMap → Content
config_content cm = record { content = cm.content; binary_content = cm.binary_content }

abbrev pub secret_content : Secret → Content
secret_content secret = record { content = secret.content; binary_content = [] }

-- What a tenant holds of each kind under each namespace and name, and the host, there with labels.
abbrev pub TenantView : Type 0 → Type 0
TenantView S = S → VolumeType → String → String → Option Content

abbrev pub HostView : Type 0 → Type 0
HostView S = S → VolumeType → String → String → Option (Content × Map String)

module _ {S : Type 0} (tenant : TenantView S) (host : HostView S) where
  -- A read reports what the tenant holds, and changes nothing.
  pub record Reads {A : Type 0} (m : Exec S A) (of : A → Content) (type : VolumeType)
      (ns name : String) : Type 0 where
    pub found : (s : S) (a : A) → (m s).0 ≡ ok a → tenant s type ns name ≡ some (of a)
    pub missing :
        (s : S) (e : Error) → (m s).0 ≡ err e → is_not_found e ≡ true → tenant s type ns name ≡ none
    pub tenant_same :
        (s : S) (t : VolumeType) (j k : String) → tenant (m s).1 t j k ≡ tenant s t j k
    pub host_same : (s : S) (t : VolumeType) (j k : String) → host (m s).1 t j k ≡ host s t j k

  -- A write that succeeds is there, and no write changes anything else.
  pub record Writes (m : Action S) (c : Content) (labels : Map String) (type : VolumeType)
      (ns name : String) : Type 0 where
    pub written : (s : S) → (m s).0 ≡ ok tt → host (m s).1 type ns name ≡ some (c, labels)
    pub tenant_same :
        (s : S) (t : VolumeType) (j k : String) → tenant (m s).1 t j k ≡ tenant s t j k
    pub host_frame :
        (s : S) (t : VolumeType) (j k : String)
        → (host (m s).1 t j k ≡ host s t j k) ⊎ ((t ≡ type) × (j ≡ ns) × (k ≡ name))

  pub Reads-kind :
      {A : Type 0} {m : Exec S A} {of : A → Content} {kind type : VolumeType} {ns name : String}
      → kind ≡ type
      → Reads m of kind ns name
      → Reads m of type ns name
  Reads-kind {m = m} {of = of} {ns = ns} {name = name} e = subst (λ type. Reads m of type ns name) e

  pub Writes-kind :
      {m : Action S} {c : Content} {labels : Map String} {kind type : VolumeType} {ns name : String}
      → kind ≡ type
      → Writes m c labels kind ns name
      → Writes m c labels type ns name
  Writes-kind {m = m} {c = c} {labels = labels} {ns = ns} {name = name} e =
      subst (λ type. Writes m c labels type ns name) e

  -- What is relied on of the two clusters.
  pub record CopyLaws {Q : Type 0} (client : ClusterClient S) (clientset : Clientset Q S)
      : Type 0 where
    pub reads_config :
        (ns name : String)
        → Reads (clientset.get_config_map ns name) config_content volume_config_map ns name
    pub reads_secret :
        (ns name : String)
        → Reads (clientset.get_secret ns name) secret_content volume_secret ns name
    pub writes_config :
        (ns name : String) (content binary labels : Map String)
        → Writes
            (client.ensure_config_map ns name content binary labels)
            (record { content = content; binary_content = binary })
            labels
            volume_config_map
            ns
            name
    pub writes_secret :
        (ns name : String) (content labels : Map String)
        → Writes
            (client.ensure_secret ns name content labels)
            (record { content = content; binary_content = [] })
            labels
            volume_secret
            ns
            name

  module _ (pool : VNodePool) where
    -- The host holds what the tenant holds, with the labels of the pool, or the tenant lacks it.
    abbrev pub IsCopied : VolumeResourceRef → S → Type 0
    IsCopied r s =
        (tenant s r.type r.source_namespace r.source_name ≡ none)
        ⊎ (c : Content) × ((tenant s r.type r.source_namespace r.source_name ≡ some c)
            × (host s r.type pool.namespace r.target_name ≡ some (c, pool_labels pool)))
