-- ===== src/Service/Node/Coherence.antt =====
-- The nodes that the repository holds: their conditions agree with their phase.
use mathlib.Core.Path.{subst}
use vnode.Base.{ℕ, ◌≡◌, inl, inr, refl, sym, ◌∙◌, String, some, [], some-injective, ◌==◌}
use vnode.Base.Errors.{Error}
use vnode.Base.Exec.Keeps.{Keeps, keeps_rules}
use vnode.Model.Pool.{VNodePool, TenantRef}
use vnode.Model.Node.{VNode, node_ready, is_ready}
use vnode.Ports.{NodeRepository, NodeRegistrar}
use vnode.Ports.Laws.{View, RepositoryLaws, RegistrarLaws}
use vnode.Service.Node.{
  new_node, provision, save_node, registration_failed, confirm_node, deprovision, save_ready,
  retry_failed, sync_failed, update_status,
}
use vnode.Service.NodeMarks.{
  mark_ready, mark_registration_failed, mark_sync_failed, mark_terminating,
  registration_failed_conditions, sync_failed_conditions,
}

-- `IsReady` says no more than the phase.
abbrev pub Coherent : VNode → Type 0
Coherent n = is_ready n ≡ (n.phase == node_ready)

pub record AllCoherent {S : Type 0} (find : View S) (s : S) : Type 0 where
  pub at : (ns name : String) (n : VNode) → find s ns name ≡ some n → Coherent n

Coherent-mark_ready : (n : VNode) → Coherent (mark_ready n)
unfolding is_ready
Coherent-mark_ready n = refl

Coherent-mark_registration_failed :
    (n : VNode) (e : Error) → Coherent (mark_registration_failed n e)
unfolding is_ready registration_failed_conditions
Coherent-mark_registration_failed n e = refl

Coherent-mark_sync_failed : (n : VNode) (e : Error) → Coherent (mark_sync_failed n e)
unfolding is_ready sync_failed_conditions
Coherent-mark_sync_failed n e = refl

Coherent-mark_terminating : (n : VNode) → Coherent (mark_terminating n)
unfolding is_ready mark_terminating
Coherent-mark_terminating n = refl

Coherent-new_node : (pool : VNodePool) (existing : ℕ) → Coherent (new_node pool existing)
unfolding is_ready new_node
Coherent-new_node pool existing = refl

-- Coherence is about the status alone.
Coherent-of_status :
    (n m : VNode) → m.phase ≡ n.phase → m.conditions ≡ n.conditions → Coherent n → Coherent m
unfolding is_ready
Coherent-of_status n m p c h = rw (p, c) h

Coherent-of_blank : (m : VNode) → m.phase ≡ "" → m.conditions ≡ [] → Coherent m
unfolding is_ready
Coherent-of_blank m p c = rw (p, c)

module _ {S : Type 0} {repo : NodeRepository S} {registrar : NodeRegistrar S} {find : View S}
    (L : RepositoryLaws repo find) (R : RegistrarLaws registrar find) where
  save-Keeps : (n : VNode) → Coherent n → Keeps (AllCoherent find) (repo.save n)
  save-Keeps n c = record {
    at = λ s h. record {
      at = λ ns name m found. elim (L.save_changes n s ns name) [
        | inl same ↦ h.at ns name m (sym same ∙ found)
        | inr (_, _, inl saved) ↦
            subst Coherent (some-injective _ _ (sym saved.is_kept ∙ found))
              (Coherent-of_status n saved.kept saved.phase saved.conditions c)
        | inr (_, _, inr blank) ↦
            subst Coherent (some-injective _ _ (sym blank.is_kept ∙ found))
              (Coherent-of_blank blank.kept blank.phase blank.conditions)
      ];
    };
  }

  delete-Keeps : (j k : String) → Keeps (AllCoherent find) (repo.delete j k)
  delete-Keeps j k = record {
    at = λ s h. record {
      at = λ ns name m found. elim (L.delete_changes j k s ns name) [
        | inl same ↦ h.at ns name m (sym same ∙ found)
        | inr gone ↦ cc
      ];
    };
  }

  list-Keeps : (j k : String) → Keeps (AllCoherent find) (repo.list_by_pool j k)
  list-Keeps j k = record {
    at = λ s h. record {
      at = λ ns name m found. h.at ns name m (sym (L.list_keeps j k s ns name) ∙ found);
    };
  }

  register-Keeps : (n : VNode) (t : TenantRef) → Keeps (AllCoherent find) (registrar.register n t)
  register-Keeps n t = record {
    at = λ s h. record { at = λ j k m f. h.at j k m (sym (R.register_keeps n t s j k) ∙ f) };
  }

  deregister-Keeps :
      (n : VNode) (t : TenantRef) → Keeps (AllCoherent find) (registrar.deregister n t)
  deregister-Keeps n t = record {
    at = λ s h. record { at = λ j k m f. h.at j k m (sym (R.deregister_keeps n t s j k) ∙ f) };
  }

  update-Keeps :
      (n : VNode) (t : TenantRef) → Keeps (AllCoherent find) (registrar.update_node_status n t)
  update-Keeps n t = record {
    at = λ s h. record { at = λ j k m f. h.at j k m (sym (R.update_keeps n t s j k) ∙ f) };
  }

  ruleset node_rules = (
    keeps_rules, save-Keeps, delete-Keeps, list-Keeps, register-Keeps, deregister-Keeps,
    update-Keeps, Coherent-mark_ready, Coherent-mark_registration_failed, Coherent-mark_sync_failed,
    Coherent-mark_terminating,
  )

  -- `Deprovision` keeps every node of the repository coherent, whether or not it fails.
  pub deprovision-AllCoherent :
      (n : VNode) → Keeps (AllCoherent find) (deprovision repo registrar n)
  unfolding deprovision
  deprovision-AllCoherent n = search node_rules

  save_ready-Keeps : (n : VNode) → Keeps (AllCoherent find) (save_ready repo registrar n)
  unfolding save_ready
  save_ready-Keeps n = search node_rules

  retry_failed-Keeps :
      (n : VNode) (e : Error) → Keeps (AllCoherent find) (retry_failed repo registrar n e)
  unfolding retry_failed
  retry_failed-Keeps n e = search node_rules

  sync_failed-Keeps :
      (n : VNode) (e : Error) → Keeps (AllCoherent find) (sync_failed repo registrar n e)
  unfolding sync_failed
  sync_failed-Keeps n e = search node_rules

  -- `UpdateStatus` keeps every node of the repository coherent, on every branch.
  pub update_status-AllCoherent :
      (n : VNode) → Keeps (AllCoherent find) (update_status repo registrar n)
  unfolding update_status
  update_status-AllCoherent n =
      search (node_rules, save_ready-Keeps, retry_failed-Keeps, sync_failed-Keeps)

  confirm_node-Keeps : (n : VNode) → Keeps (AllCoherent find) (confirm_node repo registrar n)
  unfolding confirm_node
  confirm_node-Keeps n = search node_rules

  registration_failed-Keeps :
      (n : VNode) (e : Error) → Keeps (AllCoherent find) (registration_failed repo registrar n e)
  unfolding registration_failed
  registration_failed-Keeps n e = search node_rules

  save_node-Keeps :
      (pool : VNodePool) (n : VNode)
      → Coherent n
      → Keeps (AllCoherent find) (save_node repo registrar pool n)
  unfolding save_node
  save_node-Keeps pool n c = search (node_rules, registration_failed-Keeps, confirm_node-Keeps)

  -- `Provision` keeps every node of the repository coherent, whether or not it fails.
  pub provision-AllCoherent :
      (pool : VNodePool) → Keeps (AllCoherent find) (provision repo registrar pool)
  unfolding provision
  provision-AllCoherent pool = search (node_rules, save_node-Keeps, Coherent-new_node)

-- One call of the node service, with any pool or node.
pub data NodeStep {S : Type 0} (repo : NodeRepository S) (registrar : NodeRegistrar S) (s t : S)
    : Type 0 where
  provisions :
      (pool : VNodePool) → t ≡ (provision repo registrar pool s).1 → NodeStep repo registrar s t
  deprovisions : (n : VNode) → t ≡ (deprovision repo registrar n s).1 → NodeStep repo registrar s t
  updates : (n : VNode) → t ≡ (update_status repo registrar n s).1 → NodeStep repo registrar s t

-- The worlds that calls of the node service lead to, one after the other.
pub data NodeReach {S : Type 0} (repo : NodeRepository S) (registrar : NodeRegistrar S) (s : S)
    : S → Type 0 where
  here : NodeReach repo registrar s s
  next :
      {t u : S}
      → NodeReach repo registrar s t
      → NodeStep repo registrar t u
      → NodeReach repo registrar s u

module _ {S : Type 0} {repo : NodeRepository S} {registrar : NodeRegistrar S} {find : View S}
    (L : RepositoryLaws repo find) (R : RegistrarLaws registrar find) where
  NodeStep-AllCoherent :
      {t u : S} → NodeStep repo registrar t u → AllCoherent find t → AllCoherent find u
  NodeStep-AllCoherent {t} (provisions pool e) h =
      subst (AllCoherent find) (sym e) ((provision-AllCoherent L R pool).at t h)
  NodeStep-AllCoherent {t} (deprovisions n e) h =
      subst (AllCoherent find) (sym e) ((deprovision-AllCoherent L R n).at t h)
  NodeStep-AllCoherent {t} (updates n e) h =
      subst (AllCoherent find) (sym e) ((update_status-AllCoherent L R n).at t h)

  -- From a repository in which `IsReady` says of each node what its phase says, any sequence of calls of
  -- `Provision`, `Deprovision` and `UpdateStatus`, failing or not, leads to such a repository.
  pub NodeReach-AllCoherent :
      {s t : S} → AllCoherent find s → NodeReach repo registrar s t → AllCoherent find t
  NodeReach-AllCoherent h here = h
  NodeReach-AllCoherent h (next r step) = NodeStep-AllCoherent step (NodeReach-AllCoherent h r)
