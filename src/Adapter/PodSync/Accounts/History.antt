-- ===== src/Adapter/PodSync/Accounts/History.antt =====
-- The counters of internal/observability/metrics.go over a history of the operator.
use vnode.Base.{ℕ, ◌+◌, String, Option, List, [], ◌∷◌}
use vnode.Base.Exec.{Action}
use vnode.Observability.{CounterLib, Observed}
use vnode.Kube.{Quantities, TenantClients}
use vnode.Ports.{NodeRepository, ClusterClient, PodTranslator}
use vnode.Api.{PoolApi}
use vnode.Adapter.PodSync.{Recorder, sync_pool_cr}
use vnode.Adapter.PodSync.Accounts.{dues}

-- A reconciliation of the pods of a pool, or a change of the world by anything else.
pub data Moment (W : Type 0) : Type 0 where
  syncs : (ns name : String) → Moment W
  changes : (W → W) → Moment W

module _ {Q V W : Type 0} (counters : CounterLib V) (pools : PoolApi W)
    (retry : Action W → Action W) (quantities : Quantities Q) (repo : NodeRepository W)
    (host : ClusterClient W) (translator : PodTranslator W) (tenants : TenantClients Q W)
    (recorder : Option (Recorder W)) (c l : String) where
  abbrev step : Moment W → Observed V W → Observed V W
  step (syncs ns name) s =
      (sync_pool_cr pools retry quantities repo host translator tenants counters recorder ns name
        s).1
  step (changes f) s = record s { world = f s.world }

  abbrev pub after : List (Moment W) → Observed V W → Observed V W
  after [] s = s
  after (m ∷ ms) s = after ms (step m s)

  abbrev worth : Moment W → Observed V W → ℕ
  worth (syncs ns name) s = dues c l pools quantities repo host translator tenants ns name s.world
  worth (changes f) s = 0

  -- What the reconciliations of a history are worth, each in the world in which it was made.
  abbrev pub total_worth : List (Moment W) → Observed V W → ℕ
  total_worth [] s = 0
  total_worth (m ∷ ms) s = worth m s + total_worth ms (step m s)
