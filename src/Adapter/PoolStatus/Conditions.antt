-- ===== src/Adapter/PoolStatus/Conditions.antt =====
-- The conditions of a pool.
use vnode.Base.{
  ◌≡◌, refl, String, Option, none, some, List, [], ◌∷◌, ◌==◌, if◌then◌else◌, arith, eq_iff, eq_refl,
}
use vnode.Api.{ApiCondition}
use vnode.Adapter.PoolStatus.{set_status_condition}

-- The first condition of the type.
abbrev pub find_condition : String → List ApiCondition → Option ApiCondition
find_condition type [] = none
find_condition type (c ∷ cs) =
    let rest = find_condition type cs in if c.type == type then some c else rest

-- After `setStatusCondition` the condition of its type is the one that was set, and the condition of every
-- other type is what it was.
pub find_condition-set_status_condition :
    (other type : String) (cs : List ApiCondition) (status reason text : String)
    → find_condition other (set_status_condition cs type status reason text) ≡ (
        if type == other
        then some (record { type = type; status = status; reason = reason; message = text })
        else find_condition other cs)
unfolding set_status_condition
find_condition-set_status_condition other type [] status reason text = refl
find_condition-set_status_condition other type (c ∷ cs) status reason text = ground (
  arith,
  find_condition-set_status_condition other type cs status reason text,
  eq_iff c.type type,
  eq_iff c.type other,
  eq_iff type other,
  eq_iff c.status status,
  eq_iff c.reason reason,
  eq_iff c.message text,
)

-- A condition that is set twice is set once: the second call changes nothing.
pub set_status_condition_twice :
    (cs : List ApiCondition) (type status reason text : String)
    → set_status_condition (set_status_condition cs type status reason text) type status reason text
      ≡ set_status_condition cs type status reason text
unfolding set_status_condition
set_status_condition_twice [] type status reason text =
    rw (eq_refl type, eq_refl status, eq_refl reason, eq_refl text) refl
set_status_condition_twice (c ∷ cs) type status reason text = ground (
  arith,
  set_status_condition_twice cs type status reason text,
  eq_iff c.type type,
  eq_refl status,
  eq_refl reason,
  eq_refl text,
)
