-- ===== src/Service/Node/Lifecycle.antt =====
-- What `Provision` and `Deprovision` leave in the repository.
use vnode.Base.{ℕ, ◌+◌, ◌≡◌, ◌≢◌, inl, inr, refl, ◌∙◌, String, none, List, length, arith}
use vnode.Base.Errors.{Error, ok}
use vnode.Base.Exec.{Reply, attempt, answer, ◌>>=◌}
use vnode.Base.Exec.Keeps.{Keeps, keeps_rules}
use vnode.Base.Exec.Outcome.{outcome_attempt}
use vnode.Model.Pool.{VNodePool, TenantRef}
use vnode.Model.Node.{VNode, node_ready}
use vnode.Ports.{NodeRepository, NodeRegistrar}
use vnode.Ports.Laws.{View, SavedAs, RepositoryLaws, RegistrarLaws}
use vnode.Service.Node.{
  new_node, node_name, provision, save_node, registration_failed, confirm_node, deprovision,
}
use vnode.Service.NodeMarks.{mark_ready, mark_terminating, ready_node_conditions}

-- A node that is ready, belongs to the pool, and is held with that status.
pub record IsProvisioned {S : Type 0} (find : View S) (pool : VNodePool) (n : VNode) (s : S)
    : Type 0 where
  pub phase : n.phase ≡ node_ready
  pub conditions : n.conditions ≡ ready_node_conditions
  pub namespace : n.namespace ≡ pool.namespace
  pub pool_name : n.pool_name ≡ pool.name
  pub stored : SavedAs n (find s n.namespace n.name)

abbrev Provisioned : {S : Type 0} → View S → VNodePool → Reply VNode × S → Type 0
Provisioned find pool (r, s) = r.error ≡ none → IsProvisioned find pool r.value s

module _ {S : Type 0} {repo : NodeRepository S} (registrar : NodeRegistrar S) {find : View S}
    (L : RepositoryLaws repo find) where
  confirm_node-Provisioned :
      (pool : VNodePool) (n : VNode) (s : S)
      → n.namespace ≡ pool.namespace
      → n.pool_name ≡ pool.name
      → Provisioned find pool (confirm_node repo registrar n s)
  unfolding confirm_node answer
  confirm_node-Provisioned pool n s e f =
      outcome_attempt (Provisioned find pool) _ _ _ s
        (λ _ saved _. record {
          phase = refl;
          conditions = refl;
          namespace = e;
          pool_name = f;
          stored = L.save_ok (mark_ready n) s saved;
        })
        (λ _ _ p. cc)

  registration_failed-Provisioned :
      (pool : VNodePool) (n : VNode) (e : Error) (s : S)
      → Provisioned find pool (registration_failed repo registrar n e s)
  unfolding registration_failed answer
  registration_failed-Provisioned pool n e s =
      outcome_attempt (Provisioned find pool) _ _ _ s (λ _ _ p. cc) (λ _ _ p. cc)

  save_node-Provisioned :
      (pool : VNodePool) (existing : ℕ) (s : S)
      → Provisioned find pool (save_node repo registrar pool (new_node pool existing) s)
  unfolding save_node new_node answer
  save_node-Provisioned pool existing s =
      outcome_attempt (Provisioned find pool) _ _ _ s
        (λ _ _.
          outcome_attempt (Provisioned find pool) _ _ _ _
            (λ _ _. confirm_node-Provisioned pool (new_node pool existing) _ refl refl)
            (λ e _. registration_failed-Provisioned pool (new_node pool existing) e _))
        (λ _ _ p. cc)

  -- If `Provision` returns no error, the node that it returns is ready, has the conditions of a ready
  -- node, belongs to the pool and its namespace, and the repository holds it with that status.
  pub provision-IsProvisioned :
      (pool : VNodePool) (s : S)
      → (provision repo registrar pool s).0.error ≡ none
      → IsProvisioned find pool
          (provision repo registrar pool s).0.value
          (provision repo registrar pool s).1
  unfolding provision answer
  provision-IsProvisioned pool s =
      outcome_attempt (Provisioned find pool) _ _ _ s
        (λ existing _. save_node-Provisioned pool (length existing) _) (λ _ _ p. cc)

  -- If the two calls of the repository succeed, so does `Deprovision`, whatever the registrar answers,
  -- and the repository no longer holds the node.
  pub deprovision_gone :
      (n : VNode) (s : S)
      → let t = mark_terminating n in
        let s₁ = (repo.save t s).1 in
        let s₂ = (registrar.deregister t t.tenant_ref s₁).1 in
        (repo.save t s).0 ≡ ok tt
        → (repo.delete n.namespace n.name s₂).0 ≡ ok tt
        → ((deprovision repo registrar n s).0 ≡ ok tt)
          × (find (deprovision repo registrar n s).1 n.namespace n.name ≡ none)
  unfolding deprovision ◌>>=◌ mark_terminating
  deprovision_gone n s saved deleted = ground (
    arith,
    L.delete_ok n.namespace n.name
        (registrar.deregister (mark_terminating n) n.tenant_ref
          (repo.save (mark_terminating n) s).1).1,
  )

-- Every node that `t` holds stands under a key under which `s` holds one.
pub record NoNewKey {S : Type 0} (find : View S) (s t : S) : Type 0 where
  pub at : (ns name : String) → find t ns name ≢ none → find s ns name ≢ none

module _ {S : Type 0} {repo : NodeRepository S} {registrar : NodeRegistrar S} {find : View S}
    (L : RepositoryLaws repo find) (R : RegistrarLaws registrar find) (s : S) where
  save-NoNewKey :
      (n : VNode) → find s n.namespace n.name ≢ none → Keeps (NoNewKey find s) (repo.save n)
  save-NoNewKey n held = record {
    at = λ t h. record {
      at = λ ns name f. elim (L.save_changes n t ns name) [
        | inl same ↦ h.at ns name (λ p. f (same ∙ p))
        | inr (e, e', _) ↦ rw (e, e') held
      ];
    };
  }

  register-NoNewKey : (n : VNode) (t : TenantRef) → Keeps (NoNewKey find s) (registrar.register n t)
  register-NoNewKey n t = record {
    at = λ u h. record { at = λ j k f. h.at j k (λ p. f (R.register_keeps n t u j k ∙ p)) };
  }

  ruleset no_new_key_rules = (keeps_rules, save-NoNewKey, register-NoNewKey)

  confirm_node-NoNewKey :
      (n : VNode)
      → find s n.namespace n.name ≢ none
      → Keeps (NoNewKey find s) (confirm_node repo registrar n)
  unfolding confirm_node
  confirm_node-NoNewKey n held = search no_new_key_rules

  registration_failed-NoNewKey :
      (n : VNode) (e : Error)
      → find s n.namespace n.name ≢ none
      → Keeps (NoNewKey find s) (registration_failed repo registrar n e)
  unfolding registration_failed
  registration_failed-NoNewKey n e held = search no_new_key_rules

  save_node-NoNewKey :
      (pool : VNodePool) (n : VNode)
      → find s n.namespace n.name ≢ none
      → Keeps (NoNewKey find s) (save_node repo registrar pool n)
  unfolding save_node
  save_node-NoNewKey pool n held =
      search (no_new_key_rules, confirm_node-NoNewKey, registration_failed-NoNewKey)

  -- `Provision` names the node after the number of nodes that the pool has. Where the repository already
  -- holds a node under that name, no node is added, also if no error is returned: every key under which
  -- a node is held afterwards held one before.
  pub provision_name_taken :
      (pool : VNodePool) (existing : List VNode)
      → (repo.list_by_pool pool.namespace pool.name s).0 ≡ ok existing
      → find s pool.namespace (node_name pool (length existing + 1)) ≢ none
      → NoNewKey find s (provision repo registrar pool s).1
  unfolding provision attempt new_node
  provision_name_taken pool existing listed held = rw listed (
      (save_node-NoNewKey pool (new_node pool (length existing)) held).at _
        (record { at = λ ns name f. λ p. f (L.list_keeps _ _ s ns name ∙ p) }))
