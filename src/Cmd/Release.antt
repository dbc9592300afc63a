-- ===== src/Cmd/Release.antt =====
-- cmd/vnode/main.go: when a pool loses its finalizer, while the three reconcilers that it puts together take turns.
use mathlib.Core.Path.{subst}
use vnode.Base.{
  ◌≡◌, ◌⊎◌, inl, inr, refl, sym, ◌∙◌, String, Bool, true, ◌&&◌, ◌==◌, Bool-cases, arith, eq_iff,
}
use vnode.Base.Exec.{Call}
use vnode.Base.Exec.Keeps.{Keeps}
use vnode.Observability.{aside}
use vnode.Model.Pool.{VNodePool}
use vnode.Ports.Laws.{Seen, SameView, Leaves, Leaves-Keeps, Keeps-Leaves}
use vnode.Service.Node.Keeps.{RepositoryKeeps, RegistrarKeeps, node_lifecycle-LifecycleKeeps}
use vnode.Service.Pool.Keeps.{LifecycleKeeps, reconcile-Keeps}
use vnode.Adapter.TenantClients.{TenantWorld, on_world}
use vnode.Adapter.TenantClients.Host.{on_host}
use vnode.Adapter.HostCalls.{host_api, pools_on_host}
use vnode.Adapter.NodeRepository.Keeps.{node_repository-RepositoryKeeps}
use vnode.Adapter.Registrar.Host.{registrar-Leaves}
use vnode.Adapter.PoolReconciler.Finalizer.{FinalizerLaws}
use vnode.Adapter.PoolReconciler.Finalizer.Release.{Released, reconcile_pool_cr_releases}
use vnode.Adapter.PoolReconciler.Finalizer.Others.{reconcile_pool_cr-Kept}
use vnode.Adapter.VnodeReconciler.Keeps.{reconcile_vnode-Keeps}
use vnode.Adapter.PodSync.Keeps.{Aside, Keeps-aside, sync_pool_cr-Keeps}
use vnode.Cmd.Laws.{FinalizerHostLaws}
use vnode.Cmd.Keeps.{left_world, resolving, syncing-SyncCallsKeep}
use vnode.Cmd.Turns.{
  Turn, pool_turn, vnode_turn, pod_turn, other_turn, Turns, none_yet, then_one, joined,
}
use vnode.Cmd.{
  Operator, Libraries, Manager, node_repo, kubeconfig_resolver, node_registrar, node_svc, pool_svc,
  pool_reconciler,
}

module _ {Q V C W R K : Type 0} (held : Seen Bool W) (libs : Libraries Q V C W R)
    (mgr : Manager Q V C W R K) (k : K) (runtime_class : String) (ns name : String) where
  -- Between the two worlds, the pool was reconciled at a time when it was being deleted and when the
  -- pool manager emptied it without an error and no node of it was left.
  pub record ReleasedBetween (s u : Operator V C W) : Type 0 where
    pub at : Operator V C W
    pub before : Turns held libs mgr k runtime_class s at
    pub released :
        Released
          (pools_on_host mgr.pools)
          (host_api mgr.vnodes)
          libs.finalizers
          libs.retry_host
          (pool_svc libs mgr k runtime_class)
          ns
          name
          at.world
    pub after :
        Turns held libs mgr k runtime_class
          ((pool_reconciler libs mgr k runtime_class).reconcile ns name at).1
          u

module _ {Q V C W R K : Type 0} {held : Seen Bool W} (libs : Libraries Q V C W R)
    (mgr : Manager Q V C W R K) (k : K) (runtime_class : String)
    (laws : FinalizerHostLaws held libs mgr k) where
  -- What is seen of the finalizers is what was seen.
  module _ (s : TenantWorld C W) where
    abbrev Inv : TenantWorld C W → Type 0
    Inv = SameView (on_host held) s

    left : (X : Type 0) (m : Call (TenantWorld C W) X) → Leaves (on_host held) m → Keeps Inv m
    left X m same = Leaves-Keeps m same

    here : {X : Type 0} (m : Call W X) → Leaves held m → Keeps Inv (on_world m)
    here m same = left_world left m same

    nodes-RepositoryKeeps : RepositoryKeeps Inv (node_repo libs mgr k runtime_class)
    nodes-RepositoryKeeps =
        node_repository-RepositoryKeeps
          (record {
            get = λ ns name. here _ (laws.vnodes.get ns name);
            create = λ cr. here _ (laws.vnodes.create cr);
            update = λ cr. here _ (laws.vnodes.update cr);
            update_status = λ cr. here _ (laws.vnodes.update_status cr);
            delete = λ ns name. here _ (laws.vnodes.delete ns name);
            list = λ ns labels. here _ (laws.vnodes.list ns labels);
          })
          laws.retries_host

    nodes-RegistrarKeeps : RegistrarKeeps Inv (node_registrar libs mgr k runtime_class)
    nodes-RegistrarKeeps =
        let (registers, deregisters, updates) =
          registrar-Leaves libs.quantities libs.version libs.now laws.retries held laws.clock
            libs.clusters laws.nodes_elsewhere (kubeconfig_resolver libs mgr k runtime_class)
            (resolving left libs mgr k runtime_class laws.host) libs.rest_config libs.client_for in
        record {
          register = λ n t. Leaves-Keeps _ (registers n t);
          deregister = λ n t. Leaves-Keeps _ (deregisters n t);
          update_node_status = λ n t. Leaves-Keeps _ (updates n t);
        }

    node_svc-LifecycleKeeps : LifecycleKeeps Inv (node_svc libs mgr k runtime_class)
    node_svc-LifecycleKeeps =
        node_lifecycle-LifecycleKeeps nodes-RepositoryKeeps nodes-RegistrarKeeps

    pool_svc-Keeps :
        (pool : VNodePool) → Keeps Inv ((pool_svc libs mgr k runtime_class).reconcile pool)
    pool_svc-Keeps =
        reconcile-Keeps (node_repo libs mgr k runtime_class) node_svc-LifecycleKeeps
          nodes-RepositoryKeeps.list_by_pool

  pool_svc-FinalizerLaws :
      FinalizerLaws
        (pools_on_host mgr.pools)
        (host_api mgr.vnodes)
        libs.finalizers
        (pool_svc libs mgr k runtime_class)
        (on_host held)
  unfolding on_world
  pool_svc-FinalizerLaws = record {
    contains-add = laws.contains-add;
    get_named = λ ns name s. laws.get_named ns name s.world;
    get_keeps = λ j l s. laws.host.get_pool j l s.world;
    patch_keeps = λ base cr s. laws.host.patch_status base cr s.world;
    list_keeps = λ j labels s. laws.vnodes.list j labels s.world;
    manager_keeps = λ p. Keeps-Leaves _ (λ s. pool_svc-Keeps s p);
    update_changes = λ cr s. laws.update_changes cr s.world;
  }

  module _ (ns name : String) where
    abbrev pub HeldIn : Operator V C W → Type 0
    HeldIn s = held s.world.world ns name ≡ true

    abbrev Between : Operator V C W → Operator V C W → Type 0
    Between = ReleasedBetween held libs mgr k runtime_class ns name

    same-HeldIn :
        {s t : TenantWorld C W}
        → SameView (on_host held) s t
        → held s.world ns name ≡ true
        → held t.world ns name ≡ true
    same-HeldIn same h = same.at ns name ∙ h

    seen_now : (s : Operator V C W) → Aside (SameView (on_host held) s.world) s
    seen_now s = record { holds = record { at = λ j l. refl } }

    -- What a reconciliation of a pool does.
    abbrev Pooled : String → String → Operator V C W → Type 0
    Pooled j l s =
        let t = ((pool_reconciler libs mgr k runtime_class).reconcile j l s).1 in
        HeldIn t ⊎ Between s t

    own_turn-Pooled : (s : Operator V C W) → HeldIn s → Pooled ns name s
    unfolding aside
    own_turn-Pooled s h =
        elim (reconcile_pool_cr_releases pool_svc-FinalizerLaws laws.retries_host ns name s.world
          h) [
            | inl still ↦ inl still
            | inr gone ↦
                inr (record { at = s; before = none_yet; released = gone; after = none_yet })
          ]

    pool_turn-Pooled : (j l : String) (s : Operator V C W) → HeldIn s → Pooled j l s
    unfolding aside
    pool_turn-Pooled j l s h = elim (Bool-cases ((j == ns) && (l == name))) [
      | inl own ↦
          let e : ns ≡ j = sym ((eq_iff _ _).0 (ground (arith, own))) in
          let f : name ≡ l = sym ((eq_iff _ _).0 (ground (arith, own))) in
          subst (λ j. Pooled j l s) e (subst (λ l. Pooled ns l s) f (own_turn-Pooled s h))
      | inr other ↦ inl (
          (reconcile_pool_cr-Kept pool_svc-FinalizerLaws laws.retries_host ns name j l other).at
            s.world h)
    ]

    Turn-HeldIn :
        {s t : Operator V C W}
        → Turn held libs mgr k runtime_class s t
        → HeldIn s
        → HeldIn t ⊎ Between s t
    Turn-HeldIn {s} (pool_turn j l e) h =
        subst (λ t. HeldIn t ⊎ Between s t) (sym e) (pool_turn-Pooled j l s h)
    Turn-HeldIn {s} (vnode_turn j l e) h = inl (
        subst HeldIn (sym e) (
          same-HeldIn
            ((Keeps-aside _ (
                reconcile_vnode-Keeps (λ a b. here s.world _ (laws.vnodes.get a b))
                  (here s.world _ laws.clock) (node_svc-LifecycleKeeps s.world) j l)).at
              s (seen_now s)).holds
            h))
    Turn-HeldIn {s} (pod_turn j l e) h = inl (
        subst HeldIn (sym e) (
          same-HeldIn
            ((sync_pool_cr-Keeps
                (syncing-SyncCallsKeep (left s.world) libs mgr k runtime_class laws.host
                  laws.pods_elsewhere ((nodes-RepositoryKeeps s.world).list_by_pool))
                libs.quantities libs.counters laws.retries_host j l).at
              s (seen_now s)).holds
            h))
    Turn-HeldIn (other_turn same) h = inl (same-HeldIn same h)

    followed_by :
        {s t u : Operator V C W}
        → Between s t
        → Turn held libs mgr k runtime_class t u
        → Between s u
    followed_by r turn = record {
      at = r.at;
      before = r.before;
      released = r.released;
      after = then_one r.after turn;
    }

    preceded_by :
        {s t u : Operator V C W}
        → Turns held libs mgr k runtime_class s t
        → Between t u
        → Between s u
    preceded_by turns r = record {
      at = r.at;
      before = joined held libs mgr k runtime_class turns r.before;
      released = r.released;
      after = r.after;
    }

    -- Let the API server of the host keep its documented behaviour on pools, and the calls on anything else leave
    -- the finalizers of pools. Where a pool carries the finalizer, any reconciliations by the three
    -- controllers that the program puts together, in any order, on any keys, whichever of their calls
    -- fail, and anything else between them that leaves the finalizers, keep it there, unless one of them is
    -- a reconciliation of that pool by the pool reconciler that read it as being deleted, emptied it of its
    -- nodes without an error, and listed no node of it after that.
    pub Turns-ReleasedBetween :
        {s u : Operator V C W}
        → held s.world.world ns name ≡ true
        → Turns held libs mgr k runtime_class s u
        → (held u.world.world ns name ≡ true)
          ⊎ ReleasedBetween held libs mgr k runtime_class ns name s u
    Turns-ReleasedBetween h none_yet = inl h
    Turns-ReleasedBetween h (then_one turns turn) = elim (Turns-ReleasedBetween h turns) [
      | inl still ↦ elim (Turn-HeldIn turn still) [
        | inl held_on ↦ inl held_on
        | inr r ↦ inr (preceded_by turns r)
      ]
      | inr r ↦ inr (followed_by r turn)
    ]
