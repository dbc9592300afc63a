-- ===== src/Examples/Scaling.antt =====
-- The nodes of one pool as a list of names in memory, and a pool that is brought to its number of nodes.
use mathlib.Core.Path.{subst}
use vnode.Base.{
  ℕ, suc, ◌≤◌, ◌<◌, ◌≡◌, ◌≢◌, refl, String, Bool, true, false, not, ◌&&◌, ◌||◌, ◌==◌, if◌then◌else◌,
  List, [], ◌∷◌, length, All, Bool-cases, inl, inr, eq_iff, arith,
}
use vnode.Base.Errors.{ok, err, leaf, plain, not_found}
use vnode.Base.Exec.{answer, attempt}
use vnode.Model.Pool.{desired_scale_actions}
use vnode.Model.Node.{VNode}
use vnode.Ports.{NodeRepository, NodeRegistrar}
use vnode.Service.NodeMarks.{no_node}
use vnode.Service.Node.{node_lifecycle, node_name, new_node, provision, save_node, confirm_node}
use vnode.Service.Pool.{scale_up, scale_down, scale, finish, reconcile}
use vnode.Service.Pool.Store.{PoolSight, Same, Listed, StoreLaws}
use vnode.Service.Pool.Convergence.{reconcile-reaches}
use vnode.Examples.Pools.{pool_of}

abbrev has : List String → String → Bool
has [] k = false
has (n ∷ names) k = (n == k) || has names k

abbrev distinct : List String → Bool
distinct [] = true
distinct (n ∷ names) = not (has names n) && distinct names

abbrev without : String → List String → List String
without k [] = []
without k (n ∷ names) = let rest = without k names in if n == k then names else n ∷ rest

abbrev nodes_of : List String → List VNode
nodes_of [] = []
nodes_of (n ∷ names) =
    record no_node { name = n; namespace = "ns"; pool_name = "p" } ∷ nodes_of names

-- A world in which a name stands twice is none of a cluster, and is not listed.
abbrev repository : NodeRepository (List String)
repository = record {
  get = λ ns name w. (err (leaf not_found name), w);
  save = λ n w. (ok tt, if has w n.name then w else n.name ∷ w);
  delete = λ ns name w. (if has w name then ok tt else err (leaf not_found name), without name w);
  list_by_pool =
      λ ns name w. (if distinct w then ok (nodes_of w) else err (leaf plain "duplicates"), w);
}

abbrev registrar : NodeRegistrar (List String)
registrar = record {
  register = λ n t w. (ok tt, w);
  deregister = λ n t w. (ok tt, w);
  update_node_status = λ n t w. (ok tt, w);
}

abbrev sight : PoolSight (List String)
sight = record { count = λ w. length w; taken = has; member = has }

unchanged : (w : List String) → Same sight w w
unchanged w = record { count = refl; taken = λ k. refl; member = λ k. refl }

length-without :
    (k : String) (w : List String) → has w k ≡ true → suc (length (without k w)) ≡ length w
length-without k [] h = ground (arith, h)
length-without k (n ∷ names) h = ground (arith, h, length-without k names)

has-without : (k j : String) (w : List String) → j ≢ k → has (without k w) j ≡ has w j
has-without k j [] other = refl
has-without k j (n ∷ names) other =
    ground (arith, other, has-without k j names other, eq_iff n k, eq_iff n j)

length-nodes_of : (w : List String) → length (nodes_of w) ≡ length w
length-nodes_of [] = refl
length-nodes_of (n ∷ names) = omega (arith, length-nodes_of names)

apart :
    (k : String) (w : List String) → has w k ≡ false → All (λ (m : VNode). m.name ≢ k) (nodes_of w)
apart k [] h = tt
apart k (n ∷ names) h = (λ e. ground (arith, h, e, eq_iff n k), apart k names (ground (arith, h)))

Listed-more :
    (all w : List String)
    → ((k : String) → has w k ≡ true → has all k ≡ true)
    → distinct w ≡ true
    → Listed sight "ns" all (nodes_of w)
Listed-more all [] within d = tt
Listed-more all (n ∷ names) within d = (
  (refl, within n (ground (arith, eq_iff n n))),
  apart n names (ground (arith, d)),
  Listed-more all names (λ k h. within k (ground (arith, h))) (ground (arith, d)),
)

Listed-nodes :
    (w : List String) (existing : List VNode)
    → (repository.list_by_pool "ns" "p" w).0 ≡ ok existing
    → (length existing ≡ length w) × Listed sight "ns" w existing
Listed-nodes w existing h = elim (Bool-cases (distinct w)) [
  | inl good ↦
      let same : nodes_of w ≡ existing = ground (arith, good, h) in
      subst (λ (e : List VNode). (length e ≡ length w) × Listed sight "ns" w e) same
        (length-nodes_of w, Listed-more w w (λ k i. i) good)
  | inr bad ↦ ground (arith, bad, h)
]

repository-StoreLaws : StoreLaws sight repository registrar "ns" "p"
repository-StoreLaws = record {
  member_taken = λ w k h. h;
  list_same = λ w. unchanged w;
  listed = Listed-nodes;
  created = λ n w e f free done. rw free (record { count = refl; taken = λ j. refl });
  resaved = λ n w e own. rw own (unchanged w);
  deleted = λ k w own done. record {
    count = length-without k w own;
    member = λ j other. has-without k j w other;
  };
  register_same = λ n t w. unchanged w;
  deregister_same = λ n t w. unchanged w;
}

two_is_free : (i : ℕ) → 1 < i → i ≤ 2 → has ("vnode-p-1" ∷ []) (node_name (pool_of 2) i) ≡ false
unfolding node_name
two_is_free i low high =
    let two : 2 ≡ i = omega arith in
    subst (λ i. has ("vnode-p-1" ∷ []) (node_name (pool_of 2) i) ≡ false) two refl

reconcile-reaches_example :
    length
      (reconcile repository (node_lifecycle repository registrar) (pool_of 2) ("vnode-p-1" ∷ [])).1
    ≡ 2
unfolding reconcile attempt scale scale_up scale_down finish desired_scale_actions provision answer
    save_node confirm_node new_node node_name
reconcile-reaches_example =
    reconcile-reaches sight repository-StoreLaws (pool_of 2) ("vnode-p-1" ∷ []) 2 refl refl refl
      (omega arith) (omega arith) two_is_free refl
