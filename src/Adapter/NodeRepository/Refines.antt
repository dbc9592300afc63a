-- ===== src/Adapter/NodeRepository/Refines.antt =====
-- The repository over `VNode` resources keeps the contract that the services rely on.
use vnode.Base.{◌≡◌, inl, refl, String, List, [], ◌∷◌}
use vnode.Base.Errors.{Result}
use vnode.Base.Exec.{Action, answer, pure, raise, ◌>>=◌}
use vnode.Base.Exec.Keeps.{Keeps, keeps_rules}
use vnode.Base.Exec.Outcome.{outcome_attempt}
use vnode.Model.Node.{VNode}
use vnode.Ports.Laws.{SameView, Leaves-Keeps, View, RepositoryLaws}
use vnode.Api.{VNodeCr, VNodeApi}
use vnode.Api.NodeLaws.{VNodeApiLaws, NeverCancelled}
use vnode.Api.Retry.{Retries}
use vnode.Adapter.NodeRepository.{
  label_pool, crs_to_nodes, write_annotations, list_by_pool, delete_cr, node_repository,
}
use vnode.Adapter.NodeRepository.Saves.{save-Keeps, save-Stored}

module _ {S : Type 0} {api : VNodeApi S} {find : View S} (laws : VNodeApiLaws api find)
    {retry : Action S → Action S} (retries : Retries retry) where
  listing :
      (j k : String) (s : S) (ns name : String)
      → find (list_by_pool api retry j k s).1 ns name ≡ find s ns name
  unfolding list_by_pool ◌>>=◌ answer
  listing j k s ns name =
      let labels = (label_pool, k) ∷ [] in
      outcome_attempt (λ (r : Result (List VNode) × S). find r.1 ns name ≡ find s ns name)
        (api.list j labels) raise (λ crs. pure (crs_to_nodes crs)) s
        (λ _ _. laws.list_keeps j labels s ns name) (λ _ _. laws.list_keeps j labels s ns name)

  annotating-SameView :
      (n : VNode) (s : S) → Keeps (SameView find s) (write_annotations api retry n)
  unfolding write_annotations
  annotating-SameView n s =
      let got : Keeps (SameView find s) (api.get n.namespace n.name) =
        Leaves-Keeps (api.get n.namespace n.name) (laws.get_keeps n.namespace n.name) in
      let put : (cr : VNodeCr) → Keeps (SameView find s) (api.update cr) =
        λ cr. Leaves-Keeps (api.update cr) (laws.update_keeps cr) in
      search (keeps_rules, got, put)

  -- The repository over `VNode` resources refines the repository that the services rely on: where the API
  -- server keeps its documented behaviour and no context is cancelled, a save writes the status of its
  -- node's entry alone, and if it succeeds the status is there; a deletion that succeeds removes its
  -- node, and lists change nothing.
  pub node_repository-RepositoryLaws :
      NeverCancelled api → RepositoryLaws (node_repository api retry) find
  unfolding node_repository delete_cr
  node_repository-RepositoryLaws live = record {
    save_changes =
        λ n s. ((save-Keeps laws retries n s).at s (record { at = λ ns name. inl refl })).at;
    save_ok = λ n s. save-Stored laws retries live n s;
    delete_changes = laws.delete_changes;
    delete_ok = laws.delete_ok;
    list_keeps = listing;
  }
