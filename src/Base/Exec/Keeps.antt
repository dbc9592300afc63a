-- ===== src/Base/Exec/Keeps.antt =====
-- Invariants of calls, one rule for each way to build a call. A call keeps an invariant whether or not
-- it fails.
use mathlib.Core.Bool.{Bool, true, false}
use Prim.Native.String.{String}
use vnode.Base.Tests.{if◌then◌else◌}
use mathlib.Core.Path.{◌≡◌}
use vnode.Base.Exec.Outcome.{outcome_attempt}
use vnode.Base.Errors.{Error, Result, ok, err, is_context_error}
use vnode.Base.Exec.{
  Call, Exec, Action, answer, raise, wrapping, unless_context, dropping_error, caught, attempt,
  ◌>>=◌,
}

-- From a world with the invariant, the call leads to one with it.
pub record Keeps {S X : Type 0} (Inv : S → Type 0) (call : Call S X) : Type 0 where
  pub at : (s : S) → Inv s → Inv (call s).1

module _ {S : Type 0} (Inv : S → Type 0) where
  -- The two branches of a test, and those of a call that may fail.
  kept_by_test :
      {X : Type 0} (test : Bool) (yes_call no_call : Call S X) (s : S)
      → Inv (yes_call s).1
      → Inv (no_call s).1
      → Inv ((if test then yes_call else no_call) s).1
  kept_by_test true yes_call no_call s kept _ = kept
  kept_by_test false yes_call no_call s _ kept = kept

  kept_by_result :
      {A X : Type 0} (r : Result A) (handle : Error → Call S X) (go_on : A → Call S X) (s : S)
      → ((e : Error) → Inv (handle e s).1)
      → ((a : A) → Inv (go_on a s).1)
      → Inv (caught r handle go_on s).1
  kept_by_result (err e) handle go_on s bad good = bad e
  kept_by_result (ok a) handle go_on s bad good = good a

module _ {S X : Type 0} {Inv : S → Type 0} where
  pub Keeps-answer : (x : X) → Keeps Inv (answer x)
  unfolding answer
  Keeps-answer x = record { at = λ _ i. i }

  pub Keeps-test :
      (test : Bool) (yes_call no_call : Call S X)
      → Keeps Inv yes_call
      → Keeps Inv no_call
      → Keeps Inv (if test then yes_call else no_call)
  Keeps-test test yes_call no_call k l = record {
    at = λ s i. kept_by_test Inv test yes_call no_call s (k.at s i) (l.at s i);
  }

  pub Keeps-attempt :
      {A : Type 0} (call : Exec S A) (handle : Error → Call S X) (go_on : A → Call S X)
      → ((e : Error) → Keeps Inv (handle e))
      → ((a : A) → Keeps Inv (go_on a))
      → Keeps Inv call
      → Keeps Inv (attempt call handle go_on)
  unfolding attempt
  Keeps-attempt call handle go_on bad good k = record {
    at = λ s i.
        let (r, t) = call s in
        kept_by_result Inv r handle go_on t (λ e. (bad e).at t (k.at s i))
          (λ a. (good a).at t (k.at s i));
  }

module _ {S A : Type 0} {Inv : S → Type 0} where
  pub Keeps-wrapping :
      (text : String) (call : Exec S A) → Keeps Inv call → Keeps Inv (wrapping text call)
  unfolding wrapping
  Keeps-wrapping text call k = record { at = λ s i. k.at s i }

  pub Keeps-bind :
      {B : Type 0} (call : Exec S A) (f : A → Exec S B)
      → ((a : A) → Keeps Inv (f a))
      → Keeps Inv call
      → Keeps Inv (call >>= f)
  unfolding ◌>>=◌
  Keeps-bind call f good k = Keeps-attempt call raise f (λ e. Keeps-answer _) good k

module _ {S : Type 0} {Inv : S → Type 0} where
  pub Keeps-unless_context :
      (e : Error) (action : Action S) → Keeps Inv action → Keeps Inv (unless_context e action)
  unfolding unless_context answer
  Keeps-unless_context e action k =
      Keeps-test (is_context_error e) (answer (ok tt)) action (Keeps-answer _) k

  pub Keeps-dropping_error :
      (action : Action S) → Keeps Inv action → Keeps Inv (dropping_error action)
  unfolding dropping_error
  Keeps-dropping_error action k = record { at = λ s i. k.at s i }

module _ {S A X : Type 0} {Inv : S → Type 0} (P : A → Type 0) where
  -- Where the rest relies on what every value of the call has.
  pub Keeps-attempt_known :
      (call : Exec S A) (handle : Error → Call S X) (go_on : A → Call S X)
      → ((s : S) (a : A) → (call s).0 ≡ ok a → P a)
      → ((e : Error) → Keeps Inv (handle e))
      → ((a : A) → P a → Keeps Inv (go_on a))
      → Keeps Inv call
      → Keeps Inv (attempt call handle go_on)
  Keeps-attempt_known call handle go_on known bad good k = record {
    at = λ s i.
        outcome_attempt (λ (r : X × S). Inv r.1) call handle go_on s
          (λ a e. (good a (known s a e)).at (call s).1 (k.at s i))
          (λ e _. (bad e).at (call s).1 (k.at s i));
  }

pub ruleset keeps_rules = (
  Keeps-answer, Keeps-test, Keeps-wrapping, Keeps-attempt, Keeps-bind, Keeps-dropping_error,
  Keeps-unless_context,
)
