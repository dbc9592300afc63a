-- ===== src/Observability.antt =====
-- internal/observability/metrics.go: the counters of the operator, one value for each pool. The counters of the
-- library are a parameter: a `CounterVec` is told by the name that it is registered under. Their values
-- are numbers that `float64` holds exactly.
use vnode.Base.{ℕ, ◌+◌, ◌≡◌, String, ◌==◌, ◌&&◌, if◌then◌else◌}
use vnode.Base.Exec.{Call, Action}
use vnode.Base.Errors.{ok}

abbrev pub host_pod_creates : String
host_pod_creates = "vnode_host_pod_creates_total"

abbrev pub host_pod_deletes : String
host_pod_deletes = "vnode_host_pod_deletes_total"

abbrev pub status_syncs : String
status_syncs = "vnode_pod_status_sync_total"

abbrev pub execution_failures : String
execution_failures = "vnode_pod_execution_failures_total"

-- `c.WithLabelValues(pool).Add(n)` as a change of the state of all counters.
pub record CounterLib (V : Type 0) : Type 0 where
  pub add : (counter pool : String) → ℕ → V → V

-- Documented behaviour: an addition changes the value of that counter for that label and no other.
pub record CounterLaws {V : Type 0} (lib : CounterLib V) (value : V → String → String → ℕ)
    : Type 0 where
  pub value-add :
      (counter pool : String) (n : ℕ) (v : V) (c l : String)
      → value (lib.add counter pool n v) c l
        ≡ value v c l + (if (counter == c) && (pool == l) then n else 0)

-- The counters are in the memory of the operator, beside all the rest of the world.
pub record Observed (V W : Type 0) : Type 0 where
  pub metrics : V
  pub world : W

module _ {V W : Type 0} where
  -- A call that leaves the counters alone.
  unfoldable pub aside : {X : Type 0} → Call W X → Call (Observed V W) X
  aside m s = let (x, w) = m s.world in (x, record s { world = w })

  unfoldable pub count : CounterLib V → (counter pool : String) → ℕ → Action (Observed V W)
  count lib counter pool n s = (ok tt, record s { metrics = lib.add counter pool n s.metrics })
