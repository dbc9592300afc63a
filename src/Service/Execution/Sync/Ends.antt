-- ===== src/Service/Execution/Sync/Ends.antt =====
-- The outcomes that a part of `ReconcilePool` may have: what its counters and its error say.
use vnode.Base.{ℕ, ◌+◌, ◌≤◌, ◌≡◌, Bool, true, false, Option, none, some, arith, if◌then◌else◌}
use vnode.Base.Errors.{Error, is_context_error}
use vnode.Base.Exec.{Exec, Reply, answer, attempt}
use vnode.Base.Exec.Outcome.{outcome_attempt}
use vnode.Service.Execution.Sync.{PodExecutionResult, Outcome, stop}

-- There are `n` source pods; `c` more creations and `d` more statuses may be counted.
pub record Fits (n c d : ℕ) (r : PodExecutionResult) : Type 0 where
  pub source : r.source_pods ≡ n
  pub created : r.created_host_pods + c ≤ n
  pub synced : r.synced_statuses + d ≤ n

-- At most as many creations and statuses are counted as there are source pods.
pub record IsCounted (r : PodExecutionResult) : Type 0 where
  pub created : r.created_host_pods ≤ r.source_pods
  pub synced : r.synced_statuses ≤ r.source_pods

-- The call was not cut off by a cancelled context.
abbrev pub IsQuiet : Option Error → Type 0
IsQuiet none = Unit
IsQuiet (some e) = is_context_error e ≡ false

abbrev pub IsGood : Reply PodExecutionResult → Type 0
IsGood r = IsCounted r.value × IsQuiet r.error

pub counted : {n c d : ℕ} (r : PodExecutionResult) → Fits n c d r → IsCounted r
counted r f = record {
  created = omega (arith, f.source, f.created);
  synced = omega (arith, f.source, f.synced);
}

pub shutdown-IsQuiet :
    (b : Bool) (wrapped : Error)
    → is_context_error wrapped ≡ b
    → IsQuiet (if b then none else some wrapped)
shutdown-IsQuiet true wrapped h = tt
shutdown-IsQuiet false wrapped h = h

module _ {S : Type 0} where
  abbrev pub Ends : Outcome S → Type 0
  Ends m = (s : S) → IsGood (m s).0

  pub attempt-Ends :
      {A : Type 0} (m : Exec S A) (handle : Error → Outcome S) (go_on : A → Outcome S)
      → ((e : Error) → Ends (handle e))
      → ((a : A) → Ends (go_on a))
      → Ends (attempt m handle go_on)
  attempt-Ends m handle go_on bad good s =
      outcome_attempt (λ (r : Reply PodExecutionResult × S). IsGood r.0) m handle go_on s
        (λ a _. good a _) (λ e _. bad e _)

  pub test-Ends :
      (b : Bool) (yes_call no_call : Outcome S)
      → Ends yes_call
      → Ends no_call
      → Ends (if b then yes_call else no_call)
  test-Ends true yes_call no_call y n = y
  test-Ends false yes_call no_call y n = n

  pub stop-Ends :
      {n c d : ℕ} (r : PodExecutionResult) (e wrapped : Error)
      → Fits n c d r
      → is_context_error wrapped ≡ is_context_error e
      → Ends (stop r e wrapped)
  unfolding answer
  stop-Ends r e wrapped f h s = (counted r f, shutdown-IsQuiet (is_context_error e) wrapped h)
