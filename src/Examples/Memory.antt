-- ===== src/Examples/Memory.antt =====
-- A repository of nodes and a registrar over a list in memory, and their laws.
use vnode.Base.{
  ◌≡◌, inl, inr, refl, sym, ◌∙◌, String, Bool, ◌&&◌, Option, none, some, List, [], ◌∷◌, ◌==◌,
  if◌then◌else◌, arith, eq_iff, eq_refl, Bool-cases,
}
use vnode.Base.Errors.{Error, Result, ok, err, leaf, plain}
use vnode.Model.Node.{VNode}
use vnode.Ports.{NodeRepository, NodeRegistrar}
use vnode.Ports.Laws.{View, Saving, RepositoryLaws, RegistrarLaws}

-- The nodes that are held, and whether the tenant's cluster can be reached.
pub record World : Type 0 where
  pub nodes : List VNode
  pub reachable : Bool

abbrev is_at : String → String → VNode → Bool
is_at ns name n = (n.namespace == ns) && (n.name == name)

abbrev find_in : List VNode → String → String → Option VNode
find_in [] ns name = none
find_in (n ∷ nodes) ns name = if is_at ns name n then some n else find_in nodes ns name

abbrev pub find : View World
find w ns name = find_in w.nodes ns name

abbrev put : VNode → List VNode → List VNode
put n [] = n ∷ []
put n (m ∷ nodes) = if is_at n.namespace n.name m then n ∷ nodes else m ∷ put n nodes

abbrev remove : String → String → List VNode → List VNode
remove ns name [] = []
remove ns name (n ∷ nodes) =
    let rest = remove ns name nodes in if is_at ns name n then rest else n ∷ rest

abbrev in_pool : String → String → List VNode → List VNode
in_pool ns pool [] = []
in_pool ns pool (n ∷ nodes) =
    let rest = in_pool ns pool nodes in
    if (n.namespace == ns) && (n.pool_name == pool) then n ∷ rest else rest

abbrev get_from : Option VNode → Result VNode
get_from none = err (leaf plain "not found")
get_from (some n) = ok n

abbrev pub repository : NodeRepository World
repository = record {
  get = λ ns name w. (get_from (find w ns name), w);
  save = λ n w. (ok tt, record w { nodes = put n w.nodes });
  delete = λ ns name w. (ok tt, record w { nodes = remove ns name w.nodes });
  list_by_pool = λ ns pool w. (ok (in_pool ns pool w.nodes), w);
}

abbrev pub unreachable : Error
unreachable = leaf plain "tenant unreachable"

abbrev call_tenant : World → Result (Unit {0})
call_tenant w = if w.reachable then ok tt else err unreachable

abbrev pub registrar : NodeRegistrar World
registrar = record {
  register = λ n t w. (call_tenant w, w);
  deregister = λ n t w. (call_tenant w, w);
  update_node_status = λ n t w. (call_tenant w, w);
}

find_in-put :
    (n : VNode) (nodes : List VNode) (ns name : String)
    → find_in (put n nodes) ns name ≡ (if is_at ns name n then some n else find_in nodes ns name)
find_in-put n [] ns name = refl
find_in-put n (m ∷ nodes) ns name = ground (
  arith,
  eq_iff n.namespace ns,
  eq_iff n.name name,
  eq_iff m.namespace n.namespace,
  eq_iff m.name n.name,
  eq_iff m.namespace ns,
  eq_iff m.name name,
  find_in-put n nodes ns name,
)

find_in-remove :
    (j k : String) (nodes : List VNode) (ns name : String)
    → find_in (remove j k nodes) ns name
      ≡ (if (j == ns) && (k == name) then none else find_in nodes ns name)
find_in-remove j k [] ns name = ground arith
find_in-remove j k (m ∷ nodes) ns name = ground (
  arith,
  eq_iff j ns,
  eq_iff k name,
  eq_iff m.namespace j,
  eq_iff m.name k,
  eq_iff m.namespace ns,
  eq_iff m.name name,
  find_in-remove j k nodes ns name,
)

save_changes :
    (n : VNode) (w : World) (ns name : String)
    → Saving n (find w ns name) (find (repository.save n w).1 ns name) ns name
save_changes n w ns name = elim (Bool-cases (is_at ns name n)) [
  | inl here ↦ inr (
    sym ((eq_iff _ _).0 (ground (arith, here))),
    sym ((eq_iff _ _).0 (ground (arith, here))),
    inl (record {
      kept = n;
      is_kept = find_in-put n w.nodes ns name ∙ rw here;
      phase = refl;
      conditions = refl;
    }),
  )
  | inr elsewhere ↦ inl (find_in-put n w.nodes ns name ∙ rw elsewhere)
]

pub repository-lawful : RepositoryLaws repository find
repository-lawful = record {
  save_changes = save_changes;
  save_ok = λ n w _. record {
    kept = n;
    is_kept = find_in-put n w.nodes n.namespace n.name ∙ rw (eq_refl n.namespace, eq_refl n.name);
    phase = refl;
    conditions = refl;
  };
  delete_changes = λ j k w ns name. rw (find_in-remove j k w.nodes ns name) (ground arith);
  delete_ok = λ ns name w _. find_in-remove ns name w.nodes ns name ∙ rw (eq_refl ns, eq_refl name);
  list_keeps = λ j k w ns name. refl;
}

pub registrar-lawful : RegistrarLaws registrar find
registrar-lawful = record {
  register_keeps = λ n t w ns name. refl;
  deregister_keeps = λ n t w ns name. refl;
  update_keeps = λ n t w ns name. refl;
}
