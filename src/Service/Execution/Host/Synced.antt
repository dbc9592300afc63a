-- ===== src/Service/Execution/Host/Synced.antt =====
-- internal/domain/service/execution_service.go: a sync of a pod's resources copies each of them.
use mathlib.Core.Path.{subst}
use text.Mathlib.TextLemmas.{append_cancel_left}
use vnode.Base.{
  ◌≡◌, ◌⊎◌, inl, inr, sym, ◌∙◌, String, none, some, List, [], ◌∷◌, All, ◌==◌, if◌then◌else◌, arith,
  eq_iff,
}
use vnode.Base.Errors.{Result, ok, wrap, is_not_found}
use vnode.Base.Exec.{Exec, Action, answer, pure, raise, attempt, wrapping, ◌>>=◌}
use vnode.Base.Exec.Outcome.{outcome_attempt, outcome_test, wrapping_ok}
use vnode.Model.Pool.{VNodePool}
use vnode.Model.Pod.{
  VolumeType, VolumeResourceRef, PodTranslation, volume_config_map, volume_secret, resource_refs,
}
use vnode.Model.Pod.Resources.{IsRef, resource_refs-IsRef}
use vnode.Kube.{Clientset}
use vnode.Ports.{ClusterClient}
use vnode.Service.Execution.Host.{pool_labels, sync_ref, sync_refs, sync_pod_resources}
use vnode.Service.Execution.Host.Copies.{
  Content, config_content, secret_content, TenantView, HostView, Reads, Writes, Reads-kind,
  Writes-kind, CopyLaws, IsCopied,
}

module _ {S : Type 0} (tenant : TenantView S) (host : HostView S) where
  module _ (pool : VNodePool) where
    -- What the sync of one reference changes: the copy alone.
    record Touches (r : VolumeResourceRef) (s t : S) : Type 0 where
      tenant_same : (ty : VolumeType) (j k : String) → tenant t ty j k ≡ tenant s ty j k
      host_frame :
          (ty : VolumeType) (j k : String)
          → (host t ty j k ≡ host s ty j k)
            ⊎ ((ty ≡ r.type) × (j ≡ pool.namespace) × (k ≡ r.target_name))

    -- A read of the tenant followed by a write on the host.
    copying :
        {A : Type 0} (r : VolumeResourceRef) (read : Exec S A) (of : A → Content)
        (text failed : String) (write : A → Action S) (s : S)
        → Reads tenant host read of r.type r.source_namespace r.source_name
        → ((a : A)
            → Writes tenant host
                (write a)
                (of a)
                (pool_labels pool)
                r.type
                pool.namespace
                r.target_name)
        → let after =
            attempt read
              (λ e. if is_not_found e then pure tt else raise (wrap failed e))
              (λ a. wrapping text (write a))
              s in
          after.0 ≡ ok tt → IsCopied tenant host pool r after.1 × Touches r s after.1
    unfolding wrapping answer
    copying r read of text failed write s reads writes =
        let Out : Result (Unit {0}) × S → Type 0 =
          λ o. o.0 ≡ ok tt → IsCopied tenant host pool r o.1 × Touches r s o.1 in
        let t = (read s).1 in
        outcome_attempt Out read _ _ s
          (λ a got h.
            let w = writes a in
            (
              inr (
                of a,
                (
                  w.tenant_same t _ _ _ ∙ reads.tenant_same s _ _ _ ∙ reads.found s a got,
                  w.written t (wrapping_ok text (write a) t tt h),
                ),
              ),
              record {
                tenant_same = λ ty j k. w.tenant_same t ty j k ∙ reads.tenant_same s ty j k;
                host_frame = λ ty j k. elim (w.host_frame t ty j k) [
                  | inl same ↦ inl (same ∙ reads.host_same s ty j k)
                  | inr here ↦ inr here
                ];
              },
            ))
          (λ e bad.
            outcome_test Out (is_not_found e) _ _ t
              (λ absent _. (
                inl (reads.tenant_same s _ _ _ ∙ reads.missing s e bad absent),
                record {
                  tenant_same = λ ty j k. reads.tenant_same s ty j k;
                  host_frame = λ ty j k. inl (reads.host_same s ty j k);
                },
              ))
              (λ _ h. ground (arith, h)))

    -- That it is copied depends on the kind and the names only.
    abbrev CopiedAs : VolumeType → String → String → String → S → Type 0
    CopiedAs type ns name target s =
        (tenant s type ns name ≡ none)
        ⊎ (c : Content) × ((tenant s type ns name ≡ some c)
            × (host s type pool.namespace target ≡ some (c, pool_labels pool)))

    -- A copy outlives the sync of another reference of the pod's, for two with one target have one
    -- source.
    Touches-IsCopied :
        (ns : String) (q r : VolumeResourceRef) (s t : S)
        → IsRef ns q
        → IsRef ns r
        → IsCopied tenant host pool q t
        → Touches q s t
        → IsCopied tenant host pool r s
        → IsCopied tenant host pool r t
    Touches-IsCopied ns q r s t iq ir copied touches before =
        let keeps : host t r.type pool.namespace r.target_name
              ≡ host s r.type pool.namespace r.target_name
            → IsCopied tenant host pool r t =
          λ same. elim before [
            | inl lacks ↦ inl (touches.tenant_same _ _ _ ∙ lacks)
            | inr (c, (has, there)) ↦ inr (c, (touches.tenant_same _ _ _ ∙ has, same ∙ there))
          ] in
        elim (touches.host_frame r.type pool.namespace r.target_name) [
          | inl same ↦ keeps same
          | inr (type, _, target) ↦
              let spaces : q.source_namespace ≡ r.source_namespace = iq.from ∙ sym ir.from in
              let names : q.source_name ≡ r.source_name =
                append_cancel_left "-" _ _
                  (append_cancel_left ns _ _ (sym iq.to ∙ sym target ∙ ir.to)) in
              subst (λ ty. CopiedAs ty r.source_namespace r.source_name r.target_name t) (sym type)
                (subst (λ n. CopiedAs q.type n r.source_name r.target_name t) spaces
                  (subst (λ n. CopiedAs q.type q.source_namespace n r.target_name t) names
                    (subst (λ n. CopiedAs q.type q.source_namespace q.source_name n t) (sym target)
                      copied)))
        ]

    module _ {Q : Type 0} (client : ClusterClient S) (clientset : Clientset Q S)
        (laws : CopyLaws tenant host client clientset) where
      sync_ref_copies :
          (ns : String) (r : VolumeResourceRef) (s : S)
          → IsRef ns r
          → (sync_ref client clientset pool r s).0 ≡ ok tt
          → IsCopied tenant host pool r (sync_ref client clientset pool r s).1
            × Touches r s (sync_ref client clientset pool r s).1
      unfolding sync_ref
      sync_ref_copies ns r s is =
          let Out : Result (Unit {0}) × S → Type 0 =
            λ o. o.0 ≡ ok tt → IsCopied tenant host pool r o.1 × Touches r s o.1 in
          outcome_test Out (r.type == volume_config_map) _ _ s
            (λ kind.
              let type : volume_config_map ≡ r.type = sym ((eq_iff _ _).0 kind) in
              copying r _ config_content _ _ _ s
                (Reads-kind tenant host type (laws.reads_config _ _))
                (λ cm. Writes-kind tenant host type (laws.writes_config _ _ _ _ _)))
            (λ no_config.
              outcome_test Out (r.type == volume_secret) _ _ s
                (λ kind.
                  let type : volume_secret ≡ r.type = sym ((eq_iff _ _).0 kind) in
                  copying r _ secret_content _ _ _ s
                    (Reads-kind tenant host type (laws.reads_secret _ _))
                    (λ secret. Writes-kind tenant host type (laws.writes_secret _ _ _ _)))
                (λ no_secret. ground (
                  arith,
                  eq_iff r.type volume_config_map,
                  eq_iff r.type volume_secret,
                  is.kind,
                  no_config,
                  no_secret,
                )))

      -- A sync of the references of one pod that succeeds copies them all; a copy of a reference that
      -- was there before stays.
      sync_refs_stable :
          (ns : String) (refs : List VolumeResourceRef) (s : S) (r : VolumeResourceRef)
          → All (IsRef ns) refs
          → IsRef ns r
          → IsCopied tenant host pool r s
          → (sync_refs client clientset pool refs s).0 ≡ ok tt
          → IsCopied tenant host pool r (sync_refs client clientset pool refs s).1
      unfolding sync_refs ◌>>=◌ answer
      sync_refs_stable ns [] s r _ is copied = λ _. copied
      sync_refs_stable ns (q ∷ refs) s r (iq, is_refs) is copied =
          let Out : Result (Unit {0}) × S → Type 0 =
            λ o. o.0 ≡ ok tt → IsCopied tenant host pool r o.1 in
          outcome_attempt Out (sync_ref client clientset pool q) raise
            (λ _. sync_refs client clientset pool refs) s
            (λ u done.
              let (now, touches) = sync_ref_copies ns q s iq done in
              sync_refs_stable ns refs _ r is_refs is
                (Touches-IsCopied ns q r s _ iq is now touches copied))
            (λ e _ h. ground (arith, h))

      sync_refs_copies :
          (ns : String) (refs : List VolumeResourceRef) (s : S)
          → All (IsRef ns) refs
          → (sync_refs client clientset pool refs s).0 ≡ ok tt
          → All (λ r. IsCopied tenant host pool r (sync_refs client clientset pool refs s).1) refs
      unfolding sync_refs ◌>>=◌ answer
      sync_refs_copies ns [] s _ = λ _. tt
      sync_refs_copies ns (q ∷ refs) s (iq, is_refs) =
          let Out : Result (Unit {0}) × S → Type 0 =
            λ o. o.0 ≡ ok tt → All (λ r. IsCopied tenant host pool r o.1) (q ∷ refs) in
          outcome_attempt Out (sync_ref client clientset pool q) raise
            (λ _. sync_refs client clientset pool refs) s
            (λ u done h.
              let (now, _) = sync_ref_copies ns q s iq done in
              (sync_refs_stable ns refs _ q is_refs iq now h, sync_refs_copies ns refs _ is_refs h))
            (λ e _ h. ground (arith, h))

      -- When the sync of a pod's resources succeeds, every ConfigMap and Secret that the pod's volumes
      -- name is on the host under the name that the host pod uses, with the tenant's content and the
      -- labels of the pool, unless the tenant lacks it. The reads of the tenant are true and change
      -- nothing, and a write of a resource changes no other one.
      pub sync_pod_resources_copies :
          (t : PodTranslation) (s : S)
          → (sync_pod_resources client clientset t pool s).0 ≡ ok tt
          → All
              (λ r. IsCopied tenant host pool r (sync_pod_resources client clientset t pool s).1)
              (resource_refs t)
      unfolding sync_pod_resources
      sync_pod_resources_copies t s =
          sync_refs_copies t.source_pod.namespace (resource_refs t) s (resource_refs-IsRef t)
