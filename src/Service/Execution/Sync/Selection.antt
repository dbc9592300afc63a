-- ===== src/Service/Execution/Sync/Selection.antt =====
-- Which pods of the tenant `ReconcilePool` runs.
use mathlib.Core.Path.{subst}
use vnode.Base.{
  sym, ◌∙◌, ◌≡◌, ◌≢◌, not, ◌&&◌, Bool-cases, if◌then◌else◌, ◌==◌, ◌↔◌, ◌⊎◌, String, inl, inr, refl,
  Bool, true, false, is_some, List, [], ◌∷◌, Any, arith, eq_iff,
}
use vnode.Base.Map.{Map, lookup, insert, get, lookup-insert}
use vnode.Model.Node.{VNode, is_ready}
use vnode.Model.Pod.{label_managed_by, label_managed_by_value}
use vnode.Base.Errors.{ok}
use vnode.Base.Exec.{answer, attempt, wrapping, ◌>>=◌}
use vnode.Kube.{CorePod, Clientset}
use vnode.Service.Execution.Sync.{ready_nodes, select_pods, list_tenant_pods_for_nodes}

-- The operator did not make the pod, it is not being deleted, and its node is in the map.
record IsChosen {Q : Type 0} (ready : Map VNode) (pod : CorePod Q) : Type 0 where
  pub foreign : get label_managed_by pod.labels ≢ label_managed_by_value
  pub alive : pod.deleting ≡ false
  pub scheduled : is_some (lookup pod.node_name ready) ≡ true

module _ {Q : Type 0} (ready : Map VNode) where
  is_source : CorePod Q → Bool
  is_source pod =
      not (get label_managed_by pod.labels == label_managed_by_value)
      && (not pod.deleting && is_some (lookup pod.node_name ready))

  is_source_iff : (pod : CorePod Q) → is_source pod ≡ true ↔ IsChosen ready pod
  unfolding is_source
  is_source_iff pod =
      let m = eq_iff (get label_managed_by pod.labels) label_managed_by_value in
      (
        λ h. record {
          foreign = λ e. ground (arith, m);
          alive = ground arith;
          scheduled = ground arith;
        },
        λ i. ground (arith, m, i.foreign, i.alive, i.scheduled),
      )

  select_pods-cons :
      (pod : CorePod Q) (pods : List (CorePod Q))
      → select_pods ready (pod ∷ pods)
        ≡ (if is_source pod then pod ∷ select_pods ready pods else select_pods ready pods)
  unfolding is_source select_pods
  select_pods-cons pod pods = ground arith

  select_pods_iff :
      (pods : List (CorePod Q)) (p : CorePod Q)
      → Any (λ q. q ≡ p) (select_pods ready pods) ↔ Any (λ q. q ≡ p) pods × IsChosen ready p
  unfolding select_pods
  select_pods_iff [] p = (λ h. ground arith, λ (h, _). h)
  select_pods_iff (q ∷ pods) p =
      let (fwd, bwd) = select_pods_iff pods p in
      let (sound, complete) = is_source_iff q in
      elim (Bool-cases (is_source q)) [
        | inl good ↦
            let step : select_pods ready (q ∷ pods) ≡ q ∷ select_pods ready pods =
              select_pods-cons q pods ∙ rw good refl in
            (
              λ h. elim (subst (Any (λ x. x ≡ p)) step h) [
                | inl e ↦ (inl e, subst (IsChosen ready) e (sound good))
                | inr later ↦ let (m, i) = fwd later in (inr m, i)
              ],
              λ (h, i).
                  subst (Any (λ x. x ≡ p)) (sym step)
                    (elim h [ inl e ↦ inl e | inr later ↦ inr (bwd (later, i)) ]),
            )
        | inr bad ↦
            let step : select_pods ready (q ∷ pods) ≡ select_pods ready pods =
              select_pods-cons q pods ∙ rw bad refl in
            (
              λ h. let (m, i) = fwd (subst (Any (λ x. x ≡ p)) step h) in (inr m, i),
              λ (h, i). subst (Any (λ x. x ≡ p)) (sym step) (elim h [
                | inl e ↦
                    let clash : false ≡ true =
                      sym bad ∙ complete (subst (IsChosen ready) (sym e) i) in
                    ground (arith, clash)
                | inr later ↦ bwd (later, i)
              ]),
            )
      ]

-- The map `ready` has the names of the nodes that are ready.
ready_nodes_iff :
    (nodes : List VNode) (ready : Map VNode) (k : String)
    → is_some (lookup k (ready_nodes nodes ready)) ≡ true
      ↔ Any (λ (n : VNode). (is_ready n ≡ true) × (n.name ≡ k)) nodes
        ⊎ (is_some (lookup k ready) ≡ true)
unfolding ready_nodes
ready_nodes_iff [] ready k = (λ h. inr h, λ h. elim h [ inl e ↦ absurd e | inr h ↦ h ])
ready_nodes_iff (n ∷ ns) ready k = elim (Bool-cases (is_ready n)) [
  | inl good ↦
      let (fwd, bwd) = ready_nodes_iff ns (insert n.name n ready) k in
      let put = lookup-insert n.name k n ready in
      rw good (
        λ h. elim (fwd h) [
          | inl later ↦ inl (inr later)
          | inr here ↦ ground (arith, here, put, good, eq_iff k n.name)
        ],
        λ h. bwd (ground (arith, h, put, eq_iff k n.name)),
      )
  | inr bad ↦
      let (fwd, bwd) = ready_nodes_iff ns ready k in
      rw bad (
        λ h. elim (fwd h) [ inl later ↦ inl (inr later) | inr here ↦ inr here ],
        λ h. bwd (ground (arith, h, bad)),
      )
]

-- The operator did not make the pod, it is not being deleted, and a node of its node's name is ready.
pub record IsSource {Q : Type 0} (nodes : List VNode) (pod : CorePod Q) : Type 0 where
  pub foreign : get label_managed_by pod.labels ≢ label_managed_by_value
  pub alive : pod.deleting ≡ false
  pub scheduled : Any (λ (n : VNode). (is_ready n ≡ true) × (n.name ≡ pod.node_name)) nodes

module _ {Q : Type 0} (nodes : List VNode) (p : CorePod Q) where
  IsChosen-IsSource : IsChosen (ready_nodes nodes []) p ↔ IsSource nodes p
  IsChosen-IsSource =
      let (fwd, bwd) = ready_nodes_iff nodes [] p.node_name in
      (
        λ c. record {
          foreign = c.foreign;
          alive = c.alive;
          scheduled = elim (fwd c.scheduled) [ inl found ↦ found | inr e ↦ ground (arith, e) ];
        },
        λ i. record { foreign = i.foreign; alive = i.alive; scheduled = bwd (inl i.scheduled) },
      )

-- The list is not asked for where no node is ready: no pod would be chosen.
listed_for :
    {Q S : Type 0} (clientset : Clientset Q S) (ready : Map VNode) (s : S)
    (items : List (CorePod Q))
    → (clientset.list_pods s).0 ≡ ok items
    → (pods : List (CorePod Q)) × ((list_tenant_pods_for_nodes clientset ready s).0 ≡ ok pods)
      × ((p : CorePod Q) → Any (λ q. q ≡ p) pods ↔ Any (λ q. q ≡ p) items × IsChosen ready p)
unfolding list_tenant_pods_for_nodes ◌>>=◌ answer attempt wrapping
listed_for clientset [] s items listed =
    ([], refl, λ p. (λ h. ground (arith, h), λ (_, c). ground (arith, c.scheduled)))
listed_for clientset (n ∷ ready) s items listed =
    (select_pods (n ∷ ready) items, rw listed refl, λ p. select_pods_iff (n ∷ ready) items p)

-- Where the tenant lists its pods, `listTenantPodsForNodes`, given the map of the ready ones among some
-- nodes, returns no error and exactly the pods that the tenant lists, that are not managed by the
-- operator, that are not being deleted, and that are scheduled to one of the nodes that is ready.
pub list_tenant_pods_for_nodes_iff :
    {Q S : Type 0} (clientset : Clientset Q S) (nodes : List VNode) (s : S)
    (items : List (CorePod Q))
    → (clientset.list_pods s).0 ≡ ok items
    → (pods : List (CorePod Q)) × ((list_tenant_pods_for_nodes clientset (ready_nodes nodes []) s).0
        ≡ ok pods)
      × ((p : CorePod Q) → Any (λ q. q ≡ p) pods ↔ Any (λ q. q ≡ p) items × IsSource nodes p)
list_tenant_pods_for_nodes_iff clientset nodes s items listed =
    let (pods, returned, same) = listed_for clientset (ready_nodes nodes []) s items listed in
    (
      pods,
      returned,
      λ p.
          let (fwd, bwd) = same p in
          let (to, back) = IsChosen-IsSource nodes p in
          (λ h. let (m, c) = fwd h in (m, to c), λ (m, i). bwd (m, back i)),
    )
