-- ===== src/Examples/Reconcilers.antt =====
-- The reconcilers of pools at concrete data.
use vnode.Base.{
  ◌≡◌, inl, inr, refl, String, Bool, true, false, ◌&&◌, ◌||◌, Option, none, some, List, [], ◌∷◌,
  ◌==◌, if◌then◌else◌, Bool-cases, eq_refl, eq_iff, sym, arith,
}
use vnode.Base.Errors.{Result, ok, err, leaf, not_found}
use vnode.Base.Exec.{attempt, ◌>>=◌}
use vnode.Base.Int.{pos}
use vnode.Model.Pool.{pool_ready}
use vnode.Ports.{PoolManager}
use vnode.Api.{ApiCondition, PoolStatus, PoolCr, VNodeApi, PoolApi, Finalizers}
use vnode.Adapter.PoolStatus.{statuses_eq, deleting_status}
use vnode.Adapter.PoolReconciler.{
  pool_finalizer, reconcile_pool_cr, handle_deletion, cleaned_up, finish_deletion,
  write_unfinalized, update_pool_status, write_pool_status,
}
use vnode.Adapter.PoolReconciler.Finalizer.{FinalizerLaws}
use vnode.Examples.Resources.{retry_on}
use vnode.Examples.Pools.{pool_of}
use vnode.Examples.Host.{Pods}

abbrev condition : String → String → ApiCondition
condition type status = record { type = type; status = status; reason = "R"; message = "" }

abbrev ready_status : PoolStatus
ready_status = record {
  phase = pool_ready;
  ready_nodes = pos 1;
  total_nodes = pos 1;
  conditions = condition "Ready" "True" ∷ [];
}

abbrev pub live : PoolCr
live = record {
  uid = "u";
  name = "p";
  namespace = "ns";
  finalizers = [];
  deleting = false;
  tenant_ref = (pool_of 1).tenant_ref;
  node_count = pos 1;
  per_node_resources = (pool_of 1).per_node_resources;
  mode = "shared";
  isolation_backend = "kata";
  runtime_class_name = "";
  node_selector = [];
  taints = [];
  tolerations = [];
  display_name = "";
  status = ready_status;
}

abbrev pub live_pools : PoolApi Pods
live_pools = record {
  get = λ ns name w. (ok live, w);
  update = λ cr w. (ok cr, w);
  update_status = λ cr w. (ok tt, w);
  patch_status = λ base cr w. (err (leaf not_found "p"), w);
  list = λ w. (ok [], w);
}

-- Pools in memory.
abbrev pub Pools : Type 0
Pools = String → String → Option PoolCr

abbrev is_at : String → String → PoolCr → Bool
is_at ns name cr = (cr.namespace == ns) && (cr.name == name)

abbrev read_at : String → String → Option PoolCr → Result PoolCr
read_at ns name none = err (leaf not_found name)
read_at ns name (some cr) = ok (record cr { namespace = ns; name = name })

abbrev put : PoolCr → Pools → Pools
put cr w ns name = if is_at ns name cr then some cr else w ns name

abbrev restated : PoolStatus → Option PoolCr → Option PoolCr
restated new none = none
restated new (some cr) = some (record cr { status = new })

abbrev pub pools : PoolApi Pools
pools = record {
  get = λ ns name w. (read_at ns name (w ns name), w);
  update = λ cr w. (ok cr, put cr w);
  update_status = λ cr w.
      (ok tt, λ ns name. if is_at ns name cr then restated cr.status (w ns name) else w ns name);
  patch_status = λ base cr w.
      (ok tt, λ ns name. if is_at ns name cr then restated cr.status (w ns name) else w ns name);
  list = λ w. (ok [], w);
}

abbrev pub no_vnodes : VNodeApi Pools
no_vnodes = record {
  get = λ ns name w. (err (leaf not_found name), w);
  create = λ cr w. (ok cr, w);
  update = λ cr w. (err (leaf not_found cr.name), w);
  update_status = λ cr w. (err (leaf not_found cr.name), w);
  delete = λ ns name w. (err (leaf not_found name), w);
  list = λ ns labels w. (ok [], w);
}

abbrev contains : List String → String → Bool
contains [] f = false
contains (g ∷ fs) f = let rest = contains fs f in (g == f) || rest

abbrev removed : List String → String → List String
removed [] f = []
removed (g ∷ fs) f = let rest = removed fs f in if g == f then rest else g ∷ rest

abbrev pub finalizers : Finalizers
finalizers = record { contains = contains; add = λ fs f. f ∷ fs; remove = removed }

abbrev manager : PoolManager Pools
manager = record { reconcile = λ p w. (record { value = p; error = none }, w) }

abbrev held_in : Option PoolCr → Bool
held_in none = false
held_in (some cr) = contains cr.finalizers pool_finalizer

abbrev pub held : Pools → String → String → Bool
held w ns name = held_in (w ns name)

read_named :
    (ns name : String) (o : Option PoolCr) (cr : PoolCr)
    → read_at ns name o ≡ ok cr
    → (cr.namespace ≡ ns) × (cr.name ≡ name)
read_named ns name none cr h = cc
read_named ns name (some old) cr h = (cc (h), cc (h))

held-restated : (new : PoolStatus) (o : Option PoolCr) → held_in (restated new o) ≡ held_in o
held-restated new none = refl
held-restated new (some cr) = refl

pub pools-FinalizerLaws : FinalizerLaws pools no_vnodes finalizers manager held
pools-FinalizerLaws = record {
  contains-add = λ fs. rw (eq_refl pool_finalizer);
  get_named = λ ns name w cr h. read_named ns name (w ns name) cr h;
  get_keeps = λ j k w ns name. refl;
  patch_keeps = λ base cr w ns name. elim (Bool-cases (is_at ns name cr)) [
    | inl here ↦ rw here (held-restated cr.status (w ns name))
    | inr other ↦ rw other
  ];
  list_keeps = λ j labels w ns name. refl;
  manager_keeps = λ p w ns name. refl;
  update_changes = λ cr w ns name. elim (Bool-cases (is_at ns name cr)) [
    | inl here ↦ inr (
      sym ((eq_iff _ _).0 (ground (arith, here))),
      sym ((eq_iff _ _).0 (ground (arith, here))),
      rw here,
    )
    | inr other ↦ inl (rw other)
  ];
}

-- A pool that is being deleted and carries the finalizer, which one call takes from it.
abbrev deleted : PoolCr
deleted = record live { deleting = true; finalizers = pool_finalizer ∷ [] }

abbrev pub one_pool : Pools
one_pool = put deleted (λ ns name. none)

releases_one :
    held
      (reconcile_pool_cr pools no_vnodes finalizers (retry_on 4) manager "ns" "p" one_pool).1
      "ns"
      "p"
    ≡ false
unfolding reconcile_pool_cr attempt handle_deletion ◌>>=◌ cleaned_up finish_deletion
    write_unfinalized update_pool_status write_pool_status statuses_eq deleting_status
releases_one = refl
