-- ===== src/Ports/Laws.antt =====
-- What the services rely on from a repository of nodes and from a registrar. A world is seen through
-- `find`, the node that the repository holds under a namespace and a name.
use vnode.Base.{◌≡◌, refl, ◌∙◌, ◌⊎◌, String, Option, none, some, []}
use vnode.Base.Exec.{Call}
use vnode.Base.Exec.Keeps.{Keeps}
use vnode.Base.Errors.{ok}
use vnode.Model.Pool.{TenantRef}
use vnode.Model.Node.{VNode}
use vnode.Ports.{NodeRepository, NodeRegistrar}

-- What is seen of a world under a namespace and a name.
abbrev pub Seen : Type 0 → Type 0 → Type 0
Seen A S = S → String → String → A

abbrev pub View : Type 0 → Type 0
View = Seen (Option VNode)

-- What is found is what was found before.
pub record SameView {A S : Type 0} (find : Seen A S) (s t : S) : Type 0 where
  pub at : (ns name : String) → find t ns name ≡ find s ns name

-- A call that changes nothing of what is found.
abbrev pub Leaves : {A S X : Type 0} → Seen A S → Call S X → Type 0
Leaves find m = (s : _) (ns name : String) → find (m s).1 ns name ≡ find s ns name

pub Leaves-Keeps :
    {A S X : Type 0} {find : Seen A S} {s : S} (m : Call S X)
    → Leaves find m
    → Keeps (SameView find s) m
Leaves-Keeps m same = record {
  at = λ t h. record { at = λ ns name. same t ns name ∙ h.at ns name };
}

pub Keeps-Leaves :
    {A S X : Type 0} {find : Seen A S} (m : Call S X)
    → ((s : S) → Keeps (SameView find s) m)
    → Leaves find m
Keeps-Leaves m k s ns name = ((k s).at s (record { at = λ j l. refl })).at ns name

-- `m` is found where `n` was saved: its status is that of `n`. The repository does not keep all else.
pub record SavedAs (n : VNode) (found : Option VNode) : Type 0 where
  pub kept : VNode
  pub is_kept : found ≡ some kept
  pub phase : kept.phase ≡ n.phase
  pub conditions : kept.conditions ≡ n.conditions

-- A node that was created and whose status has not been written.
pub record IsBlank (found : Option VNode) : Type 0 where
  pub kept : VNode
  pub is_kept : found ≡ some kept
  pub phase : kept.phase ≡ ""
  pub conditions : kept.conditions ≡ []

-- What a save may do to what is found under a key.
abbrev pub Saving : VNode → (before after : Option VNode) → String → String → Type 0
Saving n before after ns name =
    (after ≡ before) ⊎ ((ns ≡ n.namespace) × (name ≡ n.name) × (SavedAs n after ⊎ IsBlank after))

-- Documented behaviour of the API server behind a repository: a save writes the node of its key and
-- no other, and if it succeeds the status is there; a delete removes nodes at most, and the node of
-- its key if it succeeds; reading changes nothing.
pub record RepositoryLaws {S : Type 0} (repo : NodeRepository S) (find : View S) : Type 0 where
  pub save_changes :
      (n : VNode) (s : S) (ns name : String)
      → Saving n (find s ns name) (find (repo.save n s).1 ns name) ns name
  pub save_ok :
      (n : VNode) (s : S)
      → (repo.save n s).0 ≡ ok tt
      → SavedAs n (find (repo.save n s).1 n.namespace n.name)
  pub delete_changes :
      (j k : String) (s : S) (ns name : String)
      → (find (repo.delete j k s).1 ns name ≡ find s ns name)
        ⊎ (find (repo.delete j k s).1 ns name ≡ none)
  pub delete_ok :
      (ns name : String) (s : S)
      → (repo.delete ns name s).0 ≡ ok tt
      → find (repo.delete ns name s).1 ns name ≡ none
  pub list_keeps :
      (j k : String) (s : S) (ns name : String)
      → find (repo.list_by_pool j k s).1 ns name ≡ find s ns name

-- A registrar writes to the cluster of a tenant, and the repository is kept in the host cluster.
pub record RegistrarLaws {S : Type 0} (registrar : NodeRegistrar S) (find : View S) : Type 0 where
  pub register_keeps :
      (n : VNode) (t : TenantRef) (s : S) (ns name : String)
      → find (registrar.register n t s).1 ns name ≡ find s ns name
  pub deregister_keeps :
      (n : VNode) (t : TenantRef) (s : S) (ns name : String)
      → find (registrar.deregister n t s).1 ns name ≡ find s ns name
  pub update_keeps :
      (n : VNode) (t : TenantRef) (s : S) (ns name : String)
      → find (registrar.update_node_status n t s).1 ns name ≡ find s ns name
