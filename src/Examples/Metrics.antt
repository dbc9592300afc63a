-- ===== src/Examples/Metrics.antt =====
-- Counters in memory, and what reconciliations of pods add to them.
use vnode.Base.{ℕ, ◌+◌, ◌≡◌, refl, String, ◌==◌, ◌&&◌, some, List, [], ◌∷◌, if◌then◌else◌}
use vnode.Base.Errors.{ok}
use vnode.Observability.{CounterLib, Observed, execution_failures}
use vnode.Model.Pool.{validate}
use vnode.Adapter.PoolReconciler.{cr_to_pool_model}
use vnode.Adapter.PodSync.{Recorder, sync_pool_cr, two_seconds}
use vnode.Adapter.PodSync.Requeue.{sync_pool_cr-requeues}
use vnode.Adapter.PodSync.Accounts.History.{Moment, syncs, changes}
use vnode.Examples.Resources.{retry_on}
use vnode.Examples.Host.{Pods, memory_host, no_pods}
use vnode.Examples.Execution.{
  quantities, one_node, tenants, translator, translator-TranslatesQuietly,
}
use vnode.Examples.Reconcilers.{live, live_pools}

-- The value of each counter for each pool.
abbrev Values : Type 0
Values = String → String → ℕ

abbrev pub counters : CounterLib Values
counters = record {
  add = λ counter pool n v c l. v c l + (if (counter == c) && (pool == l) then n else 0);
}

abbrev value_of : Values → String → String → ℕ
value_of v = v

abbrev pub silent : Recorder Pods
silent = record { eventf = λ cr type reason action note w. (tt, w) }

abbrev pub unmetered : Observed Values Pods
unmetered = record { metrics = λ c l. 0; world = no_pods }

-- The host is emptied between the second and the third round.
abbrev history : List (Moment Pods)
history = syncs "ns" "p" ∷ syncs "ns" "p" ∷ changes (λ w. no_pods) ∷ syncs "ns" "p" ∷ []

sync_pool_cr-requeues_example :
    (sync_pool_cr live_pools
      (retry_on 4)
      quantities
      one_node
      memory_host
      translator
      tenants
      counters
      (some silent)
      "ns"
      "p"
      unmetered).0
    ≡ ok two_seconds
unfolding validate cr_to_pool_model
sync_pool_cr-requeues_example =
    sync_pool_cr-requeues live_pools (retry_on 4) quantities one_node memory_host translator tenants
      counters silent translator-TranslatesQuietly "ns" "p" unmetered live refl refl refl
