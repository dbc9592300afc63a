-- ===== src/Service/Pool/Convergence.antt =====
-- `Reconcile` brings a pool to its number of nodes.
use vnode.Base.{
  sym, inl, inr, ◌⊎◌, false, ◌∙◌, ℕ, zero, suc, ◌+◌, ◌^◌, ◌≤◌, ◌<◌, ◌≡◌, refl, ap, String, none,
  some, List, [], ◌∷◌, ◌++◌, length, drop_last, arith,
}
use vnode.Base.Errors.{ok}
use vnode.Base.Exec.{Reply, answer}
use vnode.Base.Exec.Outcome.{outcome_attempt}
use vnode.Base.Int.{pos, pos_part, wrap32, wrap32_id}
use vnode.Model.Pool.{VNodePool, desired_scale_actions}
use vnode.Model.Pool.Scaling.{desired_scale_actions_reach}
use vnode.Model.Node.{VNode}
use vnode.Ports.{NodeRepository, NodeRegistrar, NodeLifecycle}
use vnode.Service.Node.{node_name, provision, deprovision, node_lifecycle}
use vnode.Service.Pool.Store.{
  PoolSight, StoreLaws, Listed, Room, provision_grows, deprovision-Removed, last-Listed,
  still-Listed, Same, Same-Listed,
}
use vnode.Service.Pool.{Scaled, last?, scale_up, scale_down, scale, reconcile}

length-drop_last :
    (n : VNode) (ns : List VNode) → suc (length (drop_last (n ∷ ns))) ≡ length (n ∷ ns)
length-drop_last n [] = refl
length-drop_last n (m ∷ ns) = ap suc (length-drop_last m ns)

pub last?-cons : (n : VNode) (ns : List VNode) → (m : VNode) × (last? (n ∷ ns) ≡ some m)
last?-cons n [] = (n, refl)
last?-cons n (m ∷ ns) = last?-cons m ns

module _ {S : Type 0} (v : PoolSight S) {repo : NodeRepository S} {registrar : NodeRegistrar S}
    {ns name : String} (laws : StoreLaws v repo registrar ns name) where
  abbrev nodes_here : NodeLifecycle S
  nodes_here = node_lifecycle repo registrar

  -- What a loop that returned no error has done.
  abbrev Grown : ℕ → VNodePool → S → Scaled × S → Type 0
  Grown k pool s (r, s') =
      r.error ≡ none → (v.count s' ≡ v.count s + k) × (r.pool.node_count ≡ pool.node_count)

  scale_up-Grown :
      (k i : ℕ) (pool : VNodePool) (working : List VNode) (s : S)
      → pool.namespace ≡ ns
      → pool.name ≡ name
      → Room v pool k s
      → Grown k pool s (scale_up repo nodes_here k i pool working s)
  unfolding scale_up node_name
  scale_up-Grown zero i pool working s e f room = λ _. (omega arith, refl)
  scale_up-Grown (suc k) i pool working s e f room =
      let (r, s') = provision repo registrar pool s in
      let grows = provision_grows v laws pool k s e f room in
      let one_more : r.error ≡ none → v.count s' ≡ suc (v.count s) = λ h. (grows h).0 in
      let next = record pool { nodes = pool.nodes ++ (r.value.name ∷ []) } in
      let working' = working ++ (r.value ∷ []) in
      let ih : r.error ≡ none
          → Grown k next s' (scale_up repo nodes_here k (suc i) next working' s') =
        λ h. scale_up-Grown k (suc i) next working' s' e f (grows h).1 in
      ground (arith, one_more, ih)

  abbrev Shrunk : ℕ → VNodePool → S → Scaled × S → Type 0
  Shrunk k pool s (r, s') =
      r.error ≡ none → (v.count s' + k ≡ v.count s) × (r.pool.node_count ≡ pool.node_count)

  scale_down-Shrunk :
      (k : ℕ) (pool : VNodePool) (working : List VNode) (s : S)
      → k ≤ length working
      → Listed v ns s working
      → Shrunk k pool s (scale_down repo nodes_here k pool working s)
  unfolding scale_down
  scale_down-Shrunk zero pool working s _ _ = λ _. (omega arith, refl)
  scale_down-Shrunk (suc k) pool [] s short _ = absurd (omega arith)
  scale_down-Shrunk (suc k) pool (n ∷ others) s enough listed =
      let (m, last, (e, own), apart, left) = last-Listed v laws s n others listed in
      let rest = drop_last (n ∷ others) in
      let (r, s') = deprovision repo registrar m s in
      let one_less : r ≡ ok tt → suc (v.count s') ≡ v.count s =
        λ h. (deprovision-Removed v laws m s e own h).count in
      let ih : r ≡ ok tt → Shrunk k pool s' (scale_down repo nodes_here k pool rest s') = λ h.
        scale_down-Shrunk k pool rest s' (omega (arith, length-drop_last n others)) (
          still-Listed v laws m.name s s' (deprovision-Removed v laws m s e own h) rest apart
            left) in
      ground (arith, last, one_less, ih)

  -- The names that are numbered from the number of nodes up to the wanted one.
  scale-reaches :
      (pool : VNodePool) (existing : List VNode) (s : S) (wanted : ℕ)
      → pool.namespace ≡ ns
      → pool.name ≡ name
      → pool.node_count ≡ pos wanted
      → wanted < 2 ^ 31
      → length existing ≡ v.count s
      → Listed v ns s existing
      → v.count s < 2 ^ 31
      → ((i : ℕ) → v.count s < i → i ≤ wanted → v.taken s (node_name pool i) ≡ false)
      → (scale repo nodes_here pool existing s).0.error ≡ none
      → v.count (scale repo nodes_here pool existing s).1 ≡ wanted
  unfolding scale scale_up scale_down
  scale-reaches pool existing s wanted e f g small all listed few free =
      let a = desired_scale_actions pool (wrap32 (pos (length existing))) in
      let fits : length existing < 2 ^ 31 = omega arith in
      let (up, s₁) = scale_up repo nodes_here (pos_part a.0) 0 pool existing s in
      let same : wrap32 (pos (length existing)) ≡ pos (length existing) =
        wrap32_id (pos (length existing)) fits in
      let reach = desired_scale_actions_reach pool wanted (length existing) g small fits in
      let sums : (pos_part a.0 ≡ 0) ⊎ (pos_part a.1 ≡ 0) = rw same reach.2 in
      let total : length existing + pos_part a.0 ≡ wanted + pos_part a.1 = rw same reach.3 in
      elim sums [
        | inl none_added ↦
            let idle : scale_up repo nodes_here (pos_part a.0) 0 pool existing s
                ≡ (record { pool = pool; working = existing; error = none }, s) =
              rw none_added refl in
            let down =
              scale_down-Shrunk (pos_part a.1) pool existing s (omega (arith, total, none_added))
                listed in
            ground (arith, idle, down, total, none_added)
        | inr none_removed ↦
            let grown =
              scale_up-Grown (pos_part a.0) 0 pool existing s e f
                (λ i low high. free i low (omega (arith, total, none_removed, high, all))) in
            let idle : (p : VNodePool) (working : List VNode) (t : S)
                → scale_down repo nodes_here (pos_part a.1) p working t
                  ≡ (record { pool = p; working = working; error = none }, t) =
              λ p working t. rw none_removed refl in
            ground (arith, idle up.pool up.working s₁, grown, total, none_removed)
      ]

  abbrev Reached : ℕ → Reply VNodePool × S → Type 0
  Reached wanted (r, t) = r.error ≡ none → v.count t ≡ wanted

  -- `Reconcile` runs over the node service. Let its repository and registrar keep their documented behaviour,
  -- lists be up to date, and the number of nodes of the pool and the wanted number fit an `int32`. Where the
  -- names numbered from the one after the number of nodes up to the wanted number are free, a
  -- `Reconcile` that returns no error leaves the pool with the wanted number of nodes.
  pub reconcile-reaches :
      (pool : VNodePool) (s : S) (wanted : ℕ)
      → pool.namespace ≡ ns
      → pool.name ≡ name
      → pool.node_count ≡ pos wanted
      → wanted < 2 ^ 31
      → v.count s < 2 ^ 31
      → ((i : ℕ) → v.count s < i → i ≤ wanted → v.taken s (node_name pool i) ≡ false)
      → (reconcile repo (node_lifecycle repo registrar) pool s).0.error ≡ none
      → v.count (reconcile repo (node_lifecycle repo registrar) pool s).1 ≡ wanted
  unfolding reconcile answer
  reconcile-reaches pool s wanted e f g small few free =
      outcome_attempt (Reached wanted) _ _ _ s
        (λ existing listed.
          let t = (repo.list_by_pool pool.namespace pool.name s).1 in
          let same : Same v s t = rw (e, f) (laws.list_same s) in
          let (all, there) = laws.listed s existing (rw (e, f) at listed) in
          scale-reaches pool existing t wanted e f g small (all ∙ sym same.count)
            (Same-Listed v laws s t same existing there) (omega (arith, same.count, few))
            (λ i low high. same.taken _ ∙ free i (omega (arith, same.count, low)) high))
        (λ _ _ p. cc)
