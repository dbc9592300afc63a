-- ===== src/Service/Node/Status.antt =====
-- What `UpdateStatus` does to the entry of its node, and when it writes nothing.
use mathlib.Core.Path.{subst}
use vnode.Base.{
  ◌<>◌, ◌≡◌, ◌⊎◌, inl, inr, refl, sym, ◌∙◌, String, true, false, Option, arith, eq_iff,
}
use vnode.Base.Errors.{Error, ok, err, wrap, is_context_error}
use vnode.Base.Exec.{Exec, ◌>>=◌}
use vnode.Base.Exec.Keeps.{Keeps, keeps_rules}
use vnode.Model.Node.{VNode, node_ready, node_not_ready, node_terminating, node_pending}
use vnode.Ports.{NodeRepository, NodeRegistrar}
use vnode.Ports.Laws.{View, SavedAs, IsBlank, RepositoryLaws, RegistrarLaws}
use vnode.Service.Node.{update_status, save_ready, retry_failed, sync_failed}
use vnode.Service.NodeMarks.{
  mark_ready, mark_registration_failed, mark_sync_failed, should_retry_registration,
  has_registered_condition,
}

-- The statuses that `UpdateStatus` writes: a node is marked ready, or not ready. A node whose entry
-- had gone may be created anew, and have no status yet.
pub data Rewritten (n : VNode) (after : Option VNode) : Type 0 where
  ready : SavedAs (mark_ready n) after → Rewritten n after
  unregistered : (e : Error) → SavedAs (mark_registration_failed n e) after → Rewritten n after
  unsynced : (e : Error) → SavedAs (mark_sync_failed n e) after → Rewritten n after
  blank : IsBlank after → Rewritten n after

-- From `s` to `t` the entry of `n` alone changed, if any, and only to such a status.
pub record OnlyRewritten {S : Type 0} (find : View S) (n : VNode) (s t : S) : Type 0 where
  pub at :
      (ns name : String)
      → (find t ns name ≡ find s ns name)
        ⊎ ((ns ≡ n.namespace) × (name ≡ n.name) × Rewritten n (find t ns name))

module _ {S : Type 0} {repo : NodeRepository S} {registrar : NodeRegistrar S} {find : View S}
    (L : RepositoryLaws repo find) (R : RegistrarLaws registrar find) (n : VNode) (s : S) where
  -- A call that changes nothing in the repository keeps what has been reached.
  reading-OnlyRewritten :
      {A : Type 0} (m : Exec S A)
      → ((t : S) (ns name : String) → find (m t).1 ns name ≡ find t ns name)
      → Keeps (OnlyRewritten find n s) m
  reading-OnlyRewritten m same = record {
    at = λ t h. record {
      at = λ ns name. elim (h.at ns name) [
        | inl q ↦ inl (same t ns name ∙ q)
        | inr (p, q, r) ↦ inr (p, q, subst (Rewritten n) (sym (same t ns name)) r)
      ];
    };
  }

  save-OnlyRewritten :
      (m : VNode)
      → m.namespace ≡ n.namespace
      → m.name ≡ n.name
      → ((after : Option VNode) → SavedAs m after → Rewritten n after)
      → Keeps (OnlyRewritten find n s) (repo.save m)
  save-OnlyRewritten m e f fits = record {
    at = λ t h. record {
      at = λ ns name. elim (L.save_changes m t ns name) [
        | inl same ↦ elim (h.at ns name) [
          | inl q ↦ inl (same ∙ q)
          | inr (p, q, r) ↦ inr (p, q, subst (Rewritten n) (sym same) r)
        ]
        | inr (p, q, inl saved) ↦ inr (p ∙ e, q ∙ f, fits _ saved)
        | inr (p, q, inr new) ↦ inr (p ∙ e, q ∙ f, blank new)
      ];
    };
  }

  saving_ready : Keeps (OnlyRewritten find n s) (repo.save (mark_ready n))
  saving_ready = save-OnlyRewritten (mark_ready n) refl refl (λ _ saved. ready saved)

  saving_unregistered :
      (e : Error) → Keeps (OnlyRewritten find n s) (repo.save (mark_registration_failed n e))
  saving_unregistered e =
      save-OnlyRewritten (mark_registration_failed n e) refl refl (λ _ saved. unregistered e saved)

  saving_unsynced : (e : Error) → Keeps (OnlyRewritten find n s) (repo.save (mark_sync_failed n e))
  saving_unsynced e =
      save-OnlyRewritten (mark_sync_failed n e) refl refl (λ _ saved. unsynced e saved)

  registering : Keeps (OnlyRewritten find n s) (registrar.register n n.tenant_ref)
  registering =
      reading-OnlyRewritten (registrar.register n n.tenant_ref) (R.register_keeps n n.tenant_ref)

  syncing : Keeps (OnlyRewritten find n s) (registrar.update_node_status n n.tenant_ref)
  syncing =
      reading-OnlyRewritten (registrar.update_node_status n n.tenant_ref)
        (R.update_keeps n n.tenant_ref)

  ruleset rewriting_rules =
      (keeps_rules, saving_ready, saving_unregistered, saving_unsynced, registering, syncing)

  save_ready-Keeps : Keeps (OnlyRewritten find n s) (save_ready repo registrar n)
  unfolding save_ready
  save_ready-Keeps = search rewriting_rules

  retry_failed-Keeps :
      (e : Error) → Keeps (OnlyRewritten find n s) (retry_failed repo registrar n e)
  unfolding retry_failed
  retry_failed-Keeps e = search rewriting_rules

  sync_failed-Keeps : (e : Error) → Keeps (OnlyRewritten find n s) (sync_failed repo registrar n e)
  unfolding sync_failed
  sync_failed-Keeps e = search rewriting_rules

  update_status-Keeps : Keeps (OnlyRewritten find n s) (update_status repo registrar n)
  unfolding update_status
  update_status-Keeps =
      search (rewriting_rules, save_ready-Keeps, retry_failed-Keeps, sync_failed-Keeps)

  -- On every branch, failing or not, `UpdateStatus` changes the entry of its node alone, and leaves
  -- there what was there, or the node marked ready, or the node marked not ready with the conditions of
  -- a failed registration or of a failed sync, or a new entry without a status.
  pub update_status-OnlyRewritten : OnlyRewritten find n s (update_status repo registrar n s).1
  update_status-OnlyRewritten = update_status-Keeps.at s (record { at = λ ns name. inl refl })

module _ {S : Type 0} (repo : NodeRepository S) (registrar : NodeRegistrar S) (n : VNode)
    (s : S) where
  -- A node that is not ready, has a Registered condition and is to be registered again, and whose
  -- registration fails with an error that is none of a cancelled context: the error is returned, and
  -- nothing is saved, so that no watch event starts the next attempt at once.
  pub update_status_quiet :
      (e : Error)
      → n.phase ≡ node_not_ready
      → has_registered_condition n.conditions ≡ true
      → should_retry_registration n ≡ true
      → (registrar.register n n.tenant_ref s).0 ≡ err e
      → is_context_error e ≡ false
      → update_status repo registrar n s ≡ (
        err (wrap ("retrying tenant node registration for " <> n.name) e),
        (registrar.register n n.tenant_ref s).1,
      )
  unfolding update_status retry_failed ◌>>=◌
  update_status_quiet e p q r f c =
      ground (arith, eq_iff n.phase node_not_ready, eq_iff n.phase "", eq_iff node_not_ready "")

  -- A node that is being removed is marked ready again, if its status in the tenant cluster can still be
  -- written and the save succeeds.
  pub update_status_revives :
      {find : View S}
      → RepositoryLaws repo find
      → n.phase ≡ node_terminating
      → let s₁ = (registrar.update_node_status n n.tenant_ref s).1 in
        (registrar.update_node_status n n.tenant_ref s).0 ≡ ok tt
        → (repo.save (mark_ready n) s₁).0 ≡ ok tt
        → SavedAs (mark_ready n) (find (update_status repo registrar n s).1 n.namespace n.name)
  unfolding update_status save_ready ◌>>=◌ should_retry_registration
  update_status_revives {find} L p synced saved =
      subst (λ (u : S). SavedAs (mark_ready n) (find u n.namespace n.name))
        (ground (
          arith,
          eq_iff n.phase node_terminating,
          eq_iff n.phase "",
          eq_iff n.phase node_ready,
          eq_iff n.phase node_pending,
          eq_iff n.phase node_not_ready,
          eq_iff node_terminating "",
          eq_iff node_terminating node_ready,
          eq_iff node_terminating node_pending,
          eq_iff node_terminating node_not_ready,
        ))
        (L.save_ok (mark_ready n) (registrar.update_node_status n n.tenant_ref s).1 saved)
