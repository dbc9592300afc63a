-- ===== src/Api/Retry.antt =====
-- `retry.RetryOnConflict` of client-go with its default back-off: a parameter, with what it documents.
use vnode.Base.{◌≡◌, true}
use mathlib.Core.Path.{subst}
use vnode.Base.Errors.{Error, Result, err, is_conflict}
use vnode.Base.Exec.{Action}
use vnode.Base.Exec.Keeps.{Keeps}

-- The outcomes of calling `run` from a world: that of one call, or, where that fails with a conflict,
-- that of calling again.
pub data Retried {S : Type 0} (run : Action S) : S → Result (Unit {0}) × S → Type 0 where
  once : {s : S} {r : Result (Unit {0})} {t : S} → run s ≡ (r, t) → Retried run s (r, t)
  again :
      {s t : S} {e : Error} {out : Result (Unit {0}) × S}
      → run s ≡ (err e, t)
      → is_conflict e ≡ true
      → Retried run t out
      → Retried run s out

-- It calls its argument until a call does not fail with a conflict, or the attempts are used up, and
-- returns the outcome of the last call.
pub record Retries {S : Type 0} (retry : Action S → Action S) : Type 0 where
  pub at : (run : Action S) (s : S) → Retried run s (retry run s)

module _ {S : Type 0} {run : Action S} where
  Retried-Keeps :
      {Inv : S → Type 0}
      → Keeps Inv run
      → {s : S} {out : Result (Unit {0}) × S} → Retried run s out
      → Inv s
      → Inv out.1
  Retried-Keeps {Inv} k {s} (once e) h = subst (λ (o : Result (Unit {0}) × S). Inv o.1) e (k.at s h)
  Retried-Keeps {Inv} k {s} (again e _ more) h =
      Retried-Keeps k more (subst (λ (o : Result (Unit {0}) × S). Inv o.1) e (k.at s h))

  Retried-last :
      (Q : Result (Unit {0}) × S → Type 0)
      → ((u : S) → Q (run u))
      → {s : S} {out : Result (Unit {0}) × S} → Retried run s out
      → Q out
  Retried-last Q h {s} (once e) = subst Q e (h s)
  Retried-last Q h (again _ _ more) = Retried-last Q h more

module _ {S : Type 0} {retry : Action S → Action S} (retries : Retries retry) where
  pub retry-Keeps : {Inv : S → Type 0} (run : Action S) → Keeps Inv run → Keeps Inv (retry run)
  retry-Keeps run k = record { at = λ s h. Retried-Keeps k (retries.at run s) h }

  -- What holds of each call holds of the outcome.
  pub outcome_retry :
      (Q : Result (Unit {0}) × S → Type 0) (run : Action S) (s : S)
      → ((u : S) → Q (run u))
      → Q (retry run s)
  outcome_retry Q run s h = Retried-last Q h (retries.at run s)
