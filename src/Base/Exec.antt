-- ===== src/Base/Exec.antt =====
-- Calls that read and change a world `S` and may fail: what a call did before it failed stays done.
-- A Go function with the result type `error` is an `Exec S Unit`.
pub mod Keeps
pub mod Outcome
use mathlib.Core.Option.{Option}
use Prim.Native.String.{String}
use vnode.Base.Errors.{Error, Result, ok, err, wrap, is_context_error}
use vnode.Base.Tests.{if◌then◌else◌}

abbrev pub Call {ℓ} : Type ℓ → Type ℓ → Type ℓ
Call S X = S → X × S

abbrev pub Exec {ℓ} : Type ℓ → Type ℓ → Type ℓ
Exec S A = Call S (Result A)

-- A call with the result type `error`.
abbrev pub Action : Type 0 → Type 0
Action S = Exec S (Unit {0})

-- A value together with an error, where Go returns both and the value means something beside an error.
pub record Reply {ℓ} (A : Type ℓ) : Type ℓ where
  pub value : A
  pub error : Option Error

abbrev add_context {ℓ} : {A : Type ℓ} → String → Result A → Result A
add_context text (ok a) = ok a
add_context text (err e) = err (wrap text e)

-- `return x`
unfoldable pub answer {ℓ} : {S X : Type ℓ} → X → Call S X
answer x s = (x, s)

-- `return a, nil` and `return err`
abbrev pub pure {ℓ} : {S A : Type ℓ} → A → Exec S A
pure a = answer (ok a)

abbrev pub raise {ℓ} : {S A : Type ℓ} → Error → Exec S A
raise e = answer (err e)

module _ {ℓ} {S A : Type ℓ} where
  -- The error of `m`, if any, comes back as `fmt.Errorf("text: %w", err)`.
  unfoldable pub wrapping : String → Exec S A → Exec S A
  wrapping text m s = let (r, s') = m s in (add_context text r, s')

-- `if isIgnorable(err) { return nil }; k`
unfoldable pub unless_context : {S : Type 0} → Error → Action S → Action S
unless_context e k = if is_context_error e then answer (ok tt) else k

-- `_ = m`: what `m` did stays done, and its error is dropped.
unfoldable pub dropping_error : {S : Type 0} → Action S → Action S
dropping_error m s = let (r, s') = m s in (ok tt, s')

module _ {ℓ} {S A X : Type ℓ} where
  abbrev caught : Result A → (Error → Call S X) → (A → Call S X) → Call S X
  caught (ok a) handle go_on s = go_on a s
  caught (err e) handle go_on s = handle e s

  -- `a, err := m; if err != nil { handle err }; go_on a`
  unfoldable pub attempt : Exec S A → (Error → Call S X) → (A → Call S X) → Call S X
  attempt m handle go_on s = let (r, s') = m s in caught r handle go_on s'

module _ {ℓ} {S A B : Type ℓ} where
  infixl 5 ◌>>=◌ ◌>>◌
  -- `a, err := m; if err != nil { return err }; f a`. Opening this opens all that stands above.
  unfoldable pub ◌>>=◌ : Exec S A → (A → Exec S B) → Exec S B
  unfolding answer wrapping unless_context dropping_error attempt
  ◌>>=◌ m f = attempt m raise f

  abbrev pub ◌>>◌ : Exec S A → Exec S B → Exec S B
  m >> k = m >>= λ _. k
