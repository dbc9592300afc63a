-- ===== src/Model/Pool/Scaling.antt =====
-- The scaling decision.
use vnode.Base.{ℕ, ◌+◌, ◌≡◌, ◌⊎◌, arith, ◌<◌, ◌^◌}
use vnode.Base.Int.{pos, pos_part, neg_part}
use vnode.Model.Pool.{VNodePool, desired_scale_actions}

-- For a count that is not negative and a number of nodes that an `int32` holds, nothing wraps around:
-- both results are natural numbers, one of them is 0, and adding the one and removing the other
-- takes the number of nodes to the count.
pub desired_scale_actions_reach :
    (p : VNodePool) (wanted current : ℕ)
    → p.node_count ≡ pos wanted
    → wanted < 2 ^ 31
    → current < 2 ^ 31
    → let a = desired_scale_actions p (pos current) in
      (neg_part a.0 ≡ 0)
      × (neg_part a.1 ≡ 0)
      × ((pos_part a.0 ≡ 0) ⊎ (pos_part a.1 ≡ 0))
      × (current + pos_part a.0 ≡ wanted + pos_part a.1)
unfolding desired_scale_actions
desired_scale_actions_reach p wanted current e h k = ground arith
