-- ===== src/Examples/Copies.antt =====
-- The resources of a tenant and their copies in memory, and a pod's ConfigMap that is copied.
use vnode.Base.{
  ◌≡◌, ◌⊎◌, inl, inr, refl, String, ◌&&◌, Option, none, some, [], ◌∷◌, All, ◌==◌, if◌then◌else◌,
  arith, eq_iff, eq_refl, Bool-cases,
}
use vnode.Base.Errors.{Error, Result, ok, err, leaf, plain, not_found}
use vnode.Base.Exec.{Action, ◌>>=◌}
use vnode.Base.Map.{Map}
use vnode.Model.Pod.{
  VolumeType, PodTranslation, volume_config_map, volume_secret, translate_pod, resource_refs,
}
use vnode.Kube.{ConfigMap, Secret, Clientset, HostApi}
use vnode.Service.Execution.Host.{pool_labels, sync_pod_resources}
use vnode.Service.Execution.Host.Copies.{
  Content, config_content, secret_content, TenantView, HostView, Writes, CopyLaws, IsCopied,
}
use vnode.Service.Execution.Host.Synced.{sync_pod_resources_copies}
use vnode.Adapter.PodClient.{ensure_config_map, pod_cluster_client}
use vnode.Adapter.PodClient.Copies.{ApiWrites, pod_cluster_client-CopyLaws}
use vnode.Examples.Clients.{quantities}
use vnode.Examples.Pods.{pod, opts}
use vnode.Examples.Pools.{pool_of}

-- What the host holds; the tenant has one ConfigMap and no Secret.
abbrev Copies : Type 0
Copies = VolumeType → String → String → Option (Content × Map String)

abbrev app_config : ConfigMap
app_config = record { content = ("mode", "fast") ∷ []; binary_content = []; labels = [] }

abbrev configs : String → String → Option ConfigMap
configs ns name = if (ns == "default") && (name == "app") then some app_config else none

abbrev config_of : Option ConfigMap → Option Content
config_of none = none
config_of (some cm) = some (config_content cm)

abbrev tenant_view : TenantView Copies
tenant_view w type ns name = if type == volume_config_map then config_of (configs ns name) else none

abbrev host_view : HostView Copies
host_view w = w

abbrev read_config : Option ConfigMap → Result ConfigMap
read_config none = err (leaf not_found "configmaps not found")
read_config (some cm) = ok cm

abbrev put : VolumeType → String → String → Content → Map String → Copies → Copies
put type ns name c labels w t j k =
    if (t == type) && ((j == ns) && (k == name)) then some (c, labels) else w t j k

abbrev held_config : Option (Content × Map String) → Result ConfigMap
held_config none = err (leaf not_found "configmaps not found")
held_config (some (c, labels)) =
    ok (record { content = c.content; binary_content = c.binary_content; labels = labels })

abbrev held_secret : Option (Content × Map String) → Result Secret
held_secret none = err (leaf not_found "secrets not found")
held_secret (some (c, labels)) = ok (record { content = c.content; labels = labels })

abbrev tenant : Clientset String Copies
tenant = record {
  list_pods = λ w. (ok [], w);
  get_pod = λ ns name w. (err (leaf not_found "pods not found"), w);
  update_pod_status = λ ns p w. (ok tt, w);
  get_config_map = λ ns name w. (read_config (configs ns name), w);
  get_secret = λ ns name w. (err (leaf not_found "secrets not found"), w);
  get_namespace = λ name w. (ok tt, w);
  create_namespace = λ name w. (ok tt, w);
  get_lease = λ ns name w. (err (leaf plain "none"), w);
  create_lease = λ l w. (ok tt, w);
  update_lease = λ ns l w. (ok tt, w);
  delete_lease = λ ns name w. (ok tt, w);
  get_node = λ name w. (err (leaf plain "none"), w);
  create_node = λ n w. (ok tt, w);
  update_node = λ n w. (ok tt, w);
  update_node_status = λ n w. (ok tt, w);
  delete_node = λ name w. (ok tt, w);
}

abbrev write_config : String → String → ConfigMap → Action Copies
write_config ns name cm w = (ok tt, put volume_config_map ns name (config_content cm) cm.labels w)

abbrev write_secret : String → String → Secret → Action Copies
write_secret ns name secret w =
    (ok tt, put volume_secret ns name (secret_content secret) secret.labels w)

abbrev api : HostApi String Copies
api = record {
  create_pod = λ p w. (ok tt, w);
  get_pod = λ ns name w. (err (leaf not_found "pods not found"), w);
  update_pod = λ p w. (ok tt, w);
  delete_pod = λ ns name w. (ok tt, w);
  list_pods = λ ns labels w. (ok [], w);
  get_config_map = λ ns name w. (held_config (w volume_config_map ns name), w);
  create_config_map = write_config;
  update_config_map = write_config;
  get_secret = λ ns name w. (held_secret (w volume_secret ns name), w);
  create_secret = write_secret;
  update_secret = write_secret;
}

put_there :
    (type ns name : String) (c : Content) (labels : Map String) (w : Copies)
    → put type ns name c labels w type ns name ≡ some (c, labels)
put_there type ns name c labels w = rw (eq_refl type, eq_refl ns, eq_refl name) refl

put_elsewhere :
    (type ns name : String) (c : Content) (labels : Map String) (w : Copies) (t j k : String)
    → (put type ns name c labels w t j k ≡ w t j k) ⊎ ((t ≡ type) × (j ≡ ns) × (k ≡ name))
put_elsewhere type ns name c labels w t j k =
    elim (Bool-cases ((t == type) && ((j == ns) && (k == name)))) [
      | inl here ↦ inr (
        (eq_iff _ _).0 (ground (arith, here)),
        (eq_iff _ _).0 (ground (arith, here)),
        (eq_iff _ _).0 (ground (arith, here)),
      )
      | inr elsewhere ↦ inl (rw elsewhere refl)
    ]

Writes-put :
    (type ns name : String) (c : Content) (labels : Map String)
    → Writes tenant_view host_view (λ w. (ok tt, put type ns name c labels w)) c labels type ns name
Writes-put type ns name c labels = record {
  written = λ w _. put_there type ns name c labels w;
  tenant_same = λ w t j k. refl;
  host_frame = λ w t j k. put_elsewhere type ns name c labels w t j k;
}

api-ApiWrites : ApiWrites tenant_view host_view api
api-ApiWrites = record {
  get_config = λ ns name. record { tenant_same = λ w t j k. refl; host_same = λ w t j k. refl };
  get_secret = λ ns name. record { tenant_same = λ w t j k. refl; host_same = λ w t j k. refl };
  create_config = λ ns name cm. Writes-put _ ns name _ _;
  update_config = λ ns name cm. Writes-put _ ns name _ _;
  create_secret = λ ns name secret. Writes-put _ ns name _ _;
  update_secret = λ ns name secret. Writes-put _ ns name _ _;
}

read_config_found :
    (o : Option ConfigMap) (cm : ConfigMap)
    → read_config o ≡ ok cm
    → config_of o ≡ some (config_content cm)
read_config_found none cm h = ground (arith, h)
read_config_found (some c) cm h = ground (arith, h)

read_config_missing :
    (o : Option ConfigMap) (e : Error) → read_config o ≡ err e → config_of o ≡ none
read_config_missing none e h = refl
read_config_missing (some c) e h = ground (arith, h)

client-CopyLaws : CopyLaws tenant_view host_view (pod_cluster_client quantities api) tenant
client-CopyLaws =
    pod_cluster_client-CopyLaws tenant_view host_view quantities api api-ApiWrites tenant
      (λ ns name. record {
        found = λ w cm h. read_config_found (configs ns name) cm h;
        missing = λ w e h _. read_config_missing (configs ns name) e h;
        tenant_same = λ w t j k. refl;
        host_same = λ w t j k. refl;
      })
      (λ ns name. record {
        found = λ w secret h. ground (arith, h);
        missing = λ w e h _. refl;
        tenant_same = λ w t j k. refl;
        host_same = λ w t j k. refl;
      })

abbrev translation : PodTranslation
translation = translate_pod pod opts

abbrev no_copies : Copies
no_copies type ns name = none

abbrev copied : Copies
copied =
    (sync_pod_resources (pod_cluster_client quantities api) tenant translation (pool_of 1)
      no_copies).1

sync_pod_resources_copies_example :
    All (λ r. IsCopied tenant_view host_view (pool_of 1) r copied) (resource_refs translation)
unfolding sync_pod_resources translate_pod resource_refs pod_cluster_client ensure_config_map ◌>>=◌
sync_pod_resources_copies_example =
    sync_pod_resources_copies tenant_view host_view (pool_of 1) (pod_cluster_client quantities api)
      tenant client-CopyLaws translation no_copies refl

-- The host holds the tenant's `app` under the name that the host pod uses.
copies_app :
    copied volume_config_map "ns" "default-app"
    ≡ some (config_content app_config, pool_labels (pool_of 1))
unfolding sync_pod_resources translate_pod resource_refs pod_cluster_client ensure_config_map ◌>>=◌
copies_app = refl
