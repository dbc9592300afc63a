-- ===== src/Service/Pool/Store.antt =====
-- What the node service does to the number of nodes of a pool, where names may be taken.
use mathlib.Core.Path.{subst}
use text.Mathlib.TextLemmas.{append_cancel_left}
use vnode.Base.{
  ℕ, suc, ◌+◌, ◌≤◌, ◌<◌, ◌≡◌, ◌≢◌, refl, sym, ap, ◌∙◌, String, ◌<>◌, Bool, true, false, ◌||◌, ◌==◌,
  some, none, List, [], ◌∷◌, length, drop_last, All, eq_iff, arith,
}
use vnode.Base.Decimal.Digits.{show_ℕ-injective}
use vnode.Base.Errors.{Result, ok}
use vnode.Base.Exec.{Reply, answer, raise, wrapping, dropping_error, ◌>>=◌}
use vnode.Base.Exec.Outcome.{outcome_attempt, wrapping_ok}
use vnode.Model.Pool.{VNodePool, TenantRef}
use vnode.Model.Node.{VNode}
use vnode.Ports.{NodeRepository, NodeRegistrar}
use vnode.Service.Node.{
  new_node, node_name, provision, save_node, registration_failed, confirm_node, deprovision,
}
use vnode.Service.NodeMarks.{mark_ready, mark_terminating}
use vnode.Service.Pool.{last?}

-- Two numbers give two names.
pub node_name-injective : (pool : VNodePool) (i j : ℕ) → node_name pool i ≡ node_name pool j → i ≡ j
unfolding node_name
node_name-injective pool i j e =
    show_ℕ-injective i j
      (append_cancel_left "-" _ _ (append_cancel_left _ _ _ (append_cancel_left "vnode-" _ _ e)))

-- What is seen of the namespace of a pool: the number of the pool's nodes, the names that are taken by nodes
-- of any pool, and the names of the pool's own.
pub record PoolSight (S : Type 0) : Type 0 where
  pub count : S → ℕ
  pub taken : S → String → Bool
  pub member : S → String → Bool

module _ (P : VNode → Type 0) where
  All-drop_last :
      (o : VNode) (nodes : List VNode) → All P (o ∷ nodes) → All P (drop_last (o ∷ nodes))
  All-drop_last o [] h = tt
  All-drop_last o (m ∷ nodes) (p, ps) = (p, All-drop_last m nodes ps)

  All-last :
      (o : VNode) (nodes : List VNode)
      → All P (o ∷ nodes)
      → (m : VNode) → last? (o ∷ nodes) ≡ some m
      → P m
  All-last o [] (p, _) m last = let same : o ≡ m = cc (last) in subst P same p
  All-last o (q ∷ nodes) (_, ps) m last = All-last q nodes ps m last

module _ {S : Type 0} (v : PoolSight S) where
  pub record Same (s t : S) : Type 0 where
    pub count : v.count t ≡ v.count s
    pub taken : (k : String) → v.taken t k ≡ v.taken s k
    pub member : (k : String) → v.member t k ≡ v.member s k

  pub record Added (k : String) (s t : S) : Type 0 where
    pub count : v.count t ≡ suc (v.count s)
    pub taken : (j : String) → v.taken t j ≡ (k == j) || v.taken s j

  pub record Removed (k : String) (s t : S) : Type 0 where
    pub count : suc (v.count t) ≡ v.count s
    pub member : (j : String) → j ≢ k → v.member t j ≡ v.member s j

  -- The nodes are of the pool, and no two have one name.
  abbrev pub Listed : String → S → List VNode → Type 0
  Listed ns s [] = Unit
  Listed ns s (n ∷ nodes) =
      ((n.namespace ≡ ns) × (v.member s n.name ≡ true))
      × All (λ (m : VNode). m.name ≢ n.name) nodes
      × Listed ns s nodes

  -- Documented behaviour of the API server behind the ports, whose lists are up to date: a list gives each node
  -- of the pool once. A save under a name that is free adds a node of the pool, and one under a
  -- name that is taken adds none. A deletion that succeeds removes the node of its name alone. Nothing
  -- else changes which nodes there are.
  pub record StoreLaws (repo : NodeRepository S) (registrar : NodeRegistrar S) (ns name : String)
      : Type 0 where
    pub member_taken : (s : S) (k : String) → v.member s k ≡ true → v.taken s k ≡ true
    pub list_same : (s : S) → Same s (repo.list_by_pool ns name s).1
    pub listed :
        (s : S) (existing : List VNode)
        → (repo.list_by_pool ns name s).0 ≡ ok existing
        → (length existing ≡ v.count s) × Listed ns s existing
    pub created :
        (n : VNode) (s : S)
        → n.namespace ≡ ns
        → n.pool_name ≡ name
        → v.taken s n.name ≡ false
        → (repo.save n s).0 ≡ ok tt
        → Added n.name s (repo.save n s).1
    pub resaved :
        (n : VNode) (s : S) → n.namespace ≡ ns → v.taken s n.name ≡ true → Same s (repo.save n s).1
    pub deleted :
        (k : String) (s : S)
        → v.member s k ≡ true
        → (repo.delete ns k s).0 ≡ ok tt
        → Removed k s (repo.delete ns k s).1
    pub register_same : (n : VNode) (t : TenantRef) (s : S) → Same s (registrar.register n t s).1
    pub deregister_same :
        (n : VNode) (t : TenantRef) (s : S) → Same s (registrar.deregister n t s).1

  -- The next names that `Provision` gives to nodes of the pool are free.
  abbrev pub Room : VNodePool → ℕ → S → Type 0
  Room pool k s = (i : ℕ) → v.count s < i → i ≤ v.count s + k → v.taken s (node_name pool i) ≡ false

  module _ {repo : NodeRepository S} {registrar : NodeRegistrar S} {ns name : String}
      (laws : StoreLaws repo registrar ns name) where
    abbrev Grew : String → S → Reply VNode × S → Type 0
    Grew k s (r, t) = r.error ≡ none → Added k s t

    after-Same : {k : String} {s t u : S} → Added k s t → Same t u → Added k s u
    after-Same a e = record { count = e.count ∙ a.count; taken = λ j. e.taken j ∙ a.taken j }

    before-Same : {k : String} {s t u : S} → Same s t → Added k t u → Added k s u
    before-Same {k} e a = record {
      count = a.count ∙ ap suc e.count;
      taken = λ j. a.taken j ∙ ap (λ b. (k == j) || b) (e.taken j);
    }

    save_node-Grew :
        (pool : VNodePool) (n : VNode) (s : S)
        → n.namespace ≡ ns
        → n.pool_name ≡ name
        → v.taken s n.name ≡ false
        → Grew n.name s (save_node repo registrar pool n s)
    unfolding save_node confirm_node registration_failed answer
    save_node-Grew pool n s e f free =
        let Out : Reply VNode × S → Type 0 = Grew n.name s in
        outcome_attempt Out _ _ _ s
          (λ _ saved.
            let added = laws.created n s e f free saved in
            let t = (repo.save n s).1 in
            outcome_attempt Out _ _ _ t
              (λ _ _.
                let u = (registrar.register n pool.tenant_ref t).1 in
                let there = after-Same added (laws.register_same n pool.tenant_ref t) in
                let own : v.taken u n.name ≡ true =
                  ground (arith, there.taken n.name, eq_iff n.name n.name) in
                let end = after-Same there (laws.resaved (mark_ready n) u e own) in
                outcome_attempt Out _ _ _ u (λ _ _ _. end) (λ _ _ p. cc))
              (λ _ _. outcome_attempt Out _ _ _ _ (λ _ _ p. cc) (λ _ _ p. cc)))
          (λ _ _ p. cc)

    provision-Grew :
        (pool : VNodePool) (k : ℕ) (s : S)
        → pool.namespace ≡ ns
        → pool.name ≡ name
        → Room pool (suc k) s
        → Grew (node_name pool (suc (v.count s))) s (provision repo registrar pool s)
    unfolding provision new_node answer
    provision-Grew pool k s e f room =
        let Out : Reply VNode × S → Type 0 = Grew (node_name pool (suc (v.count s))) s in
        outcome_attempt Out _ _ _ s
          (λ existing listed.
            let t = (repo.list_by_pool pool.namespace pool.name s).1 in
            let same : Same s t = rw (e, f) (laws.list_same s) in
            let all = (laws.listed s existing (rw (e, f) at listed)).0 in
            let number : length existing + 1 ≡ suc (v.count s) = omega (arith, all) in
            let free : v.taken t (node_name pool (length existing + 1)) ≡ false =
              same.taken _
              ∙ ap (λ i. v.taken s (node_name pool i)) number
              ∙ room (suc (v.count s)) (omega arith) (omega arith) in
            let grown = save_node-Grew pool (new_node pool (length existing)) t e f free in
            let end = (save_node repo registrar pool (new_node pool (length existing)) t).1 in
            λ p. subst (λ i. Added (node_name pool i) s end) number (before-Same same (grown p)))
          (λ _ _ p. cc)

    -- A provision without an error adds one node, and uses up one name.
    pub provision_grows :
        (pool : VNodePool) (k : ℕ) (s : S)
        → pool.namespace ≡ ns
        → pool.name ≡ name
        → Room pool (suc k) s
        → (provision repo registrar pool s).0.error ≡ none
        → (v.count (provision repo registrar pool s).1 ≡ suc (v.count s))
          × Room pool k (provision repo registrar pool s).1
    provision_grows pool k s e f room done =
        let a = provision-Grew pool k s e f room done in
        (
          a.count,
          λ i low high.
              let free = room i (omega (arith, a.count)) (omega (arith, a.count)) in
              let other : node_name pool (suc (v.count s)) ≢ node_name pool i = λ same.
                let clash = node_name-injective pool (suc (v.count s)) i same in
                omega (arith, a.count, clash, low) in
              ground (
                arith,
                a.taken (node_name pool i),
                free,
                other,
                eq_iff (node_name pool (suc (v.count s))) (node_name pool i),
              ),
        )

    pub deprovision-Removed :
        (n : VNode) (s : S)
        → n.namespace ≡ ns
        → v.member s n.name ≡ true
        → (deprovision repo registrar n s).0 ≡ ok tt
        → Removed n.name s (deprovision repo registrar n s).1
    unfolding deprovision ◌>>=◌ answer mark_terminating
    deprovision-Removed n s e own =
        let Out : Result (Unit {0}) × S → Type 0 = λ (r, t). r ≡ ok tt → Removed n.name s t in
        let m = mark_terminating n in
        let t = (repo.save m s).1 in
        let u = (registrar.deregister m m.tenant_ref t).1 in
        let text = "deleting node " <> n.name in
        let marked = laws.resaved m s e (laws.member_taken s n.name own) in
        let left = laws.deregister_same m m.tenant_ref t in
        let removed =
          subst
            (λ j. (repo.delete j n.name u).0 ≡ ok tt → Removed n.name u (repo.delete j n.name u).1)
            (sym e) (laws.deleted n.name u (left.member _ ∙ marked.member _ ∙ own)) in
        outcome_attempt Out
          (wrapping ("marking node " <> (n.name <> " as terminating")) (repo.save m)) raise _ s
          (λ _ _.
            outcome_attempt Out (dropping_error (registrar.deregister m m.tenant_ref)) raise
              (λ _. wrapping text (repo.delete n.namespace n.name)) t
              (λ _ _ h.
                let r = removed (wrapping_ok text (repo.delete n.namespace n.name) u tt h) in
                record {
                  count = r.count ∙ left.count ∙ marked.count;
                  member = λ j other. r.member j other ∙ left.member j ∙ marked.member j;
                })
              (λ x _ p. cc (p)))
          (λ x _ p. cc (p))

    module _ (s : S) where
      -- A deprovision of the last of the listed nodes leaves the others listed.
      pub last-Listed :
          (n : VNode) (nodes : List VNode)
          → Listed ns s (n ∷ nodes)
          → (m : VNode) × (last? (n ∷ nodes) ≡ some m)
            × ((m.namespace ≡ ns) × (v.member s m.name ≡ true))
            × All (λ (o : VNode). o.name ≢ m.name) (drop_last (n ∷ nodes))
            × Listed ns s (drop_last (n ∷ nodes))
      last-Listed n [] (own, _, _) = (n, refl, own, tt, tt)
      last-Listed n (o ∷ nodes) (own, others, rest) =
          let (m, last, owned, apart, left) = last-Listed o nodes rest in
          (
            m,
            last,
            owned,
            (λ same. All-last (λ x. x.name ≢ n.name) o nodes others m last (sym same), apart),
            (own, All-drop_last (λ x. x.name ≢ n.name) o nodes others, left),
          )

    -- Nodes that are listed stay listed while another one is removed.
    pub still-Listed :
        (k : String) (s t : S)
        → Removed k s t
        → (nodes : List VNode) → All (λ (o : VNode). o.name ≢ k) nodes
        → Listed ns s nodes
        → Listed ns t nodes
    still-Listed k s t r [] _ _ = tt
    still-Listed k s t r (n ∷ nodes) (other, others) ((e, own), apart, rest) =
        ((e, r.member n.name other ∙ own), apart, still-Listed k s t r nodes others rest)

    pub Same-Listed :
        (s t : S) → Same s t → (nodes : List VNode) → Listed ns s nodes → Listed ns t nodes
    Same-Listed s t same [] _ = tt
    Same-Listed s t same (n ∷ nodes) ((e, own), apart, rest) =
        ((e, same.member n.name ∙ own), apart, Same-Listed s t same nodes rest)
