-- ===== src/Base/Exec/Outcome.antt =====
-- A property of the outcome of a call, from the two ways in which the call that it begins with may end.
use Prim.Native.String.{String}
use vnode.Base.Errors.{Error, Result, ok, err, wrap}
use vnode.Base.Exec.{Call, Exec, caught, attempt, wrapping, add_context}
use vnode.Base.Tests.{if◌then◌else◌}
use mathlib.Core.Bool.{Bool, true, false}
use mathlib.Core.Path.{◌≡◌, refl}

module _ {S A X : Type 0} (Q : X × S → Type 0) where
  outcome_caught :
      (r : Result A) (handle : Error → Call S X) (go_on : A → Call S X) (s : S)
      → ((a : A) → r ≡ ok a → Q (go_on a s))
      → ((e : Error) → r ≡ err e → Q (handle e s))
      → Q (caught r handle go_on s)
  outcome_caught (ok a) handle go_on s good bad = good a refl
  outcome_caught (err e) handle go_on s good bad = bad e refl

  pub outcome_attempt :
      (m : Exec S A) (handle : Error → Call S X) (go_on : A → Call S X) (s : S)
      → ((a : A) → (m s).0 ≡ ok a → Q (go_on a (m s).1))
      → ((e : Error) → (m s).0 ≡ err e → Q (handle e (m s).1))
      → Q (attempt m handle go_on s)
  unfolding attempt
  outcome_attempt m handle go_on s good bad = outcome_caught (m s).0 handle go_on (m s).1 good bad

module _ {S X : Type 0} (Q : X × S → Type 0) where
  -- The same for the two branches of a test.
  pub outcome_test :
      (test : Bool) (yes_call no_call : Call S X) (s : S)
      → (test ≡ true → Q (yes_call s))
      → (test ≡ false → Q (no_call s))
      → Q ((if test then yes_call else no_call) s)
  outcome_test true yes_call no_call s y n = y refl
  outcome_test false yes_call no_call s y n = n refl

wrapped_ok :
    {A : Type 0} (text : String) (r : Result A) (a : A) → add_context text r ≡ ok a → r ≡ ok a
wrapped_ok text (ok b) a h = h
wrapped_ok text (err e) a h = cc

-- A call whose error is wrapped succeeds with what the call does.
pub wrapping_ok :
    {S A : Type 0} (text : String) (m : Exec S A) (s : S) (a : A)
    → (wrapping text m s).0 ≡ ok a
    → (m s).0 ≡ ok a
unfolding wrapping
wrapping_ok text m s a h = wrapped_ok text (m s).0 a h

-- What holds where an action succeeds, of the action with its error wrapped.
pub done_wrapping :
    {S : Type 0} (P : S → Type 0) (text : String) (m : Exec S (Unit {0})) (s : S)
    → ((m s).0 ≡ ok tt → P (m s).1)
    → (wrapping text m s).0 ≡ ok tt
    → P (wrapping text m s).1
unfolding wrapping
done_wrapping P text m s f h = f (wrapped_ok text (m s).0 tt h)

wrapped_err :
    {A : Type 0} (text : String) (r : Result A) (e : Error)
    → add_context text r ≡ err e
    → (f : Error) × (r ≡ err f) × (wrap text f ≡ e)
wrapped_err text (ok a) e h = cc (h)
wrapped_err text (err f) e h = (f, refl, cc (h))

-- A call whose error is wrapped fails with the error of the call, wrapped.
pub wrapping_err :
    {S A : Type 0} (text : String) (m : Exec S A) (s : S) (e : Error)
    → (wrapping text m s).0 ≡ err e
    → (f : Error) × ((m s).0 ≡ err f) × (wrap text f ≡ e)
unfolding wrapping
wrapping_err text m s e h = wrapped_err text (m s).0 e h
