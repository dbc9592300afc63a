-- ===== src/Adapter/PodClient/Copies.antt =====
-- internal/adapter/outbound/kubeclient/pod_client.go: what `EnsureConfigMap` and `EnsureSecret` write.
use vnode.Base.{◌≡◌, ◌⊎◌, inl, inr, ◌∙◌, String, some, [], arith, if◌then◌else◌}
use vnode.Base.Errors.{Result, ok, is_not_found}
use vnode.Base.Exec.{Exec, Action, answer, raise, attempt}
use vnode.Base.Exec.Outcome.{outcome_attempt, outcome_test}
use vnode.Base.Map.{Map}
use vnode.Model.Pod.{VolumeType, volume_config_map, volume_secret}
use vnode.Kube.{Quantities, ConfigMap, Secret, Clientset, HostApi}
use vnode.Service.Execution.Host.Copies.{
  Content, config_content, secret_content, TenantView, HostView, Reads, Writes, CopyLaws,
}
use vnode.Adapter.PodClient.{ensure_config_map, ensure_secret, pod_cluster_client}

module _ {S : Type 0} (tenant : TenantView S) (host : HostView S) where
  -- A call that reads the host changes nothing.
  pub record Leaves {A : Type 0} (m : Exec S A) : Type 0 where
    pub tenant_same :
        (s : S) (t : VolumeType) (j k : String) → tenant (m s).1 t j k ≡ tenant s t j k
    pub host_same : (s : S) (t : VolumeType) (j k : String) → host (m s).1 t j k ≡ host s t j k

  -- What is relied on of the API of the host: each write, a creation or an update.
  pub record ApiWrites {Q : Type 0} (api : HostApi Q S) : Type 0 where
    pub get_config : (ns name : String) → Leaves (api.get_config_map ns name)
    pub get_secret : (ns name : String) → Leaves (api.get_secret ns name)
    pub create_config :
        (ns name : String) (cm : ConfigMap)
        → Writes tenant host
            (api.create_config_map ns name cm)
            (config_content cm)
            cm.labels
            volume_config_map
            ns
            name
    pub update_config :
        (ns name : String) (cm : ConfigMap)
        → Writes tenant host
            (api.update_config_map ns name cm)
            (config_content cm)
            cm.labels
            volume_config_map
            ns
            name
    pub create_secret :
        (ns name : String) (secret : Secret)
        → Writes tenant host
            (api.create_secret ns name secret)
            (secret_content secret)
            secret.labels
            volume_secret
            ns
            name
    pub update_secret :
        (ns name : String) (secret : Secret)
        → Writes tenant host
            (api.update_secret ns name secret)
            (secret_content secret)
            secret.labels
            volume_secret
            ns
            name

  framed : {A P : Type 0} {x y z : A} → y ≡ z → (x ≡ y) ⊎ P → (x ≡ z) ⊎ P
  framed e (inl same) = inl (same ∙ e)
  framed e (inr here) = inr here

  -- A read of the host, then a creation where the resource is missing and an update where it is not.
  ensuring :
      {A : Type 0} (get : Exec S A) (create update : Action S) (c : Content) (labels : Map String)
      (type : VolumeType) (ns name : String)
      → Leaves get
      → Writes tenant host create c labels type ns name
      → Writes tenant host update c labels type ns name
      → Writes tenant host
          (attempt get (λ e. if is_not_found e then create else raise e) (λ _. update))
          c
          labels
          type
          ns
          name
  unfolding answer
  ensuring get create update c labels type ns name leaves creates updates =
      let m : Action S =
        attempt get (λ e. if is_not_found e then create else raise e) (λ _. update) in
      record {
        written = λ s.
            let Out : Result (Unit {0}) × S → Type 0 =
              λ o. o.0 ≡ ok tt → host o.1 type ns name ≡ some (c, labels) in
            outcome_attempt Out get _ (λ _. update) s (λ _ _. updates.written (get s).1)
              (λ e _.
                outcome_test Out (is_not_found e) create (raise e) (get s).1
                  (λ _. creates.written (get s).1) (λ _ h. ground (arith, h)));
        tenant_same = λ s t j k.
            let Out : Result (Unit {0}) × S → Type 0 = λ o. tenant o.1 t j k ≡ tenant s t j k in
            let before = leaves.tenant_same s t j k in
            outcome_attempt Out get _ (λ _. update) s
              (λ _ _. updates.tenant_same (get s).1 t j k ∙ before)
              (λ e _.
                outcome_test Out (is_not_found e) create (raise e) (get s).1
                  (λ _. creates.tenant_same (get s).1 t j k ∙ before) (λ _. before));
        host_frame = λ s t j k.
            let Out : Result (Unit {0}) × S → Type 0 =
              λ o. (host o.1 t j k ≡ host s t j k) ⊎ ((t ≡ type) × (j ≡ ns) × (k ≡ name)) in
            let before = leaves.host_same s t j k in
            outcome_attempt Out get _ (λ _. update) s
              (λ _ _. framed before (updates.host_frame (get s).1 t j k))
              (λ e _.
                outcome_test Out (is_not_found e) create (raise e) (get s).1
                  (λ _. framed before (creates.host_frame (get s).1 t j k)) (λ _. inl before));
      }

  module _ {Q : Type 0} (quantities : Quantities Q) (api : HostApi Q S)
      (writes : ApiWrites api) where
    ensure_config_map-Writes :
        (ns name : String) (content binary labels : Map String)
        → Writes tenant host
            (ensure_config_map quantities api ns name content binary labels)
            (record { content = content; binary_content = binary })
            labels
            volume_config_map
            ns
            name
    unfolding ensure_config_map
    ensure_config_map-Writes ns name content binary labels =
        ensuring (api.get_config_map ns name) _ _ _ labels volume_config_map ns name
          (writes.get_config ns name) (writes.create_config ns name _)
          (writes.update_config ns name _)

    ensure_secret-Writes :
        (ns name : String) (content labels : Map String)
        → Writes tenant host
            (ensure_secret quantities api ns name content labels)
            (record { content = content; binary_content = [] })
            labels
            volume_secret
            ns
            name
    unfolding ensure_secret
    ensure_secret-Writes ns name content labels =
        ensuring (api.get_secret ns name) _ _ _ labels volume_secret ns name
          (writes.get_secret ns name) (writes.create_secret ns name _)
          (writes.update_secret ns name _)

    -- The client of the host writes what the service that copies resources relies on.
    pub pod_cluster_client-CopyLaws :
        (clientset : Clientset Q S)
        → ((ns name : String)
            → Reads tenant host
                (clientset.get_config_map ns name)
                config_content
                volume_config_map
                ns
                name)
        → ((ns name : String)
            → Reads tenant host (clientset.get_secret ns name) secret_content volume_secret ns name)
        → CopyLaws tenant host (pod_cluster_client quantities api) clientset
    unfolding pod_cluster_client
    pod_cluster_client-CopyLaws clientset configs secrets = record {
      reads_config = configs;
      reads_secret = secrets;
      writes_config = ensure_config_map-Writes;
      writes_secret = ensure_secret-Writes;
    }
