-- ===== src/Model/Node/Readiness.antt =====
-- What `IsReady` decides.
use vnode.Base.{◌≡◌, ◌≢◌, ◌⊎◌, ◌↔◌, true, List, [], ◌∷◌, arith, eq_iff}
use vnode.Model.Node.{VNode, NodeCondition, is_ready, ready_condition, condition_ready, node_ready}

-- The first Ready condition of the list has the status true.
abbrev pub FirstReadyHolds : List NodeCondition → Type 0
FirstReadyHolds [] = ⊥
FirstReadyHolds (c ∷ cs) =
    ((c.type ≡ condition_ready) × (c.status ≡ true))
    ⊎ ((c.type ≢ condition_ready) × FirstReadyHolds cs)

ready_condition_iff : (cs : List NodeCondition) → (ready_condition cs ≡ true) ↔ FirstReadyHolds cs
unfolding ready_condition
ready_condition_iff [] = (λ h. cc, λ h. absurd h)
ready_condition_iff (c ∷ cs) = ground (arith, eq_iff c.type condition_ready, ready_condition_iff cs)

-- `IsReady` is true exactly if the phase is Ready, whatever the conditions, or the first Ready
-- condition has the status true.
pub is_ready_iff :
    (n : VNode) → (is_ready n ≡ true) ↔ ((n.phase ≡ node_ready) ⊎ FirstReadyHolds n.conditions)
unfolding is_ready
is_ready_iff n = ground (arith, eq_iff n.phase node_ready, ready_condition_iff n.conditions)
