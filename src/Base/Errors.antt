-- ===== src/Base/Errors.antt =====
-- Go errors as values. A leaf has the kind that `errors.Is` and the tests of `apierrors` look for,
-- and its text; `wrap` is `fmt.Errorf("...: %w", err)`, through which those tests see.
use Prim.Native.String.{String, ◌++◌ as ◌<>◌}
use mathlib.Core.Bool.{Bool, true, false}

pub data Kind : Type 0 where
  not_found conflict already_exists canceled deadline_exceeded pod_terminating plain : Kind

pub data Error : Type 0 where
  leaf : Kind → String → Error
  wrap : String → Error → Error

abbrev pub kind_of : Error → Kind
kind_of (leaf k text) = k
kind_of (wrap text e) = kind_of e

-- `err.Error()`
abbrev pub message : Error → String
message (leaf k text) = text
message (wrap text e) = text <> ": " <> message e

-- `fmt.Errorf` with no `%w`
abbrev pub errorf : String → Error
errorf = leaf plain

-- `apierrors.IsNotFound`
abbrev pub is_not_found : Error → Bool
is_not_found e = elim (kind_of e) [ not_found ↦ true | _ ↦ false ]

abbrev pub is_conflict : Error → Bool
is_conflict e = elim (kind_of e) [ conflict ↦ true | _ ↦ false ]

abbrev pub is_already_exists : Error → Bool
is_already_exists e = elim (kind_of e) [ already_exists ↦ true | _ ↦ false ]

-- `errors.Is(err, context.Canceled) || errors.Is(err, context.DeadlineExceeded)`
abbrev pub is_context_error : Error → Bool
is_context_error e = elim (kind_of e) [ canceled ↦ true | deadline_exceeded ↦ true | _ ↦ false ]

-- `errors.Is(err, errPodTerminating)`: the kind is that of one error of the program.
abbrev pub is_pod_terminating : Error → Bool
is_pod_terminating e = elim (kind_of e) [ pod_terminating ↦ true | _ ↦ false ]

-- A value or an error, from a call that returns no meaningful value beside an error.
pub data Result {ℓ} (A : Type ℓ) : Type ℓ where
  ok : A → Result A
  err : Error → Result A
