-- ===== src/Base/Decimal.antt =====
-- `%d`
pub mod Digits
use Prim.Native.Nat.{ℕ, zero, suc, ◌/◌, ◌%◌}
use Prim.Native.String.{String, ◌++◌ as ◌<>◌}
use mathlib.Core.Path.{◌≡◌, refl}
use vnode.Base.Int.{ℤ, pos, negsuc}
use vnode.Base.Tests.{if◌then◌else◌, eqb, ltb}

digit : ℕ → String
digit n =
    if eqb n 0
    then "0"
    else if eqb n 1
    then "1"
    else if eqb n 2
    then "2"
    else if eqb n 3
    then "3"
    else if eqb n 4
    then "4"
    else if eqb n 5
    then "5"
    else if eqb n 6
    then "6"
    else if eqb n 7
    then "7"
    else if eqb n 8
    then "8"
    else "9"

-- A number has fewer digits than its successor is large, so the fuel `suc n` is enough.
show_loop : ℕ → ℕ → String
unfolding digit
show_loop zero n = ""
show_loop (suc fuel) n =
    let shorter = show_loop fuel (n / 10) <> digit (n % 10) in if ltb n 10 then digit n else shorter

unfoldable pub show_ℕ : ℕ → String
unfolding show_loop
show_ℕ n = show_loop (suc n) n

-- Of an integer.
abbrev pub show_ℤ : ℤ → String
show_ℤ (pos n) = show_ℕ n
show_ℤ (negsuc n) = "-" <> show_ℕ (suc n)

show_1090 : show_ℕ 1090 ≡ "1090"
unfolding show_ℕ
show_1090 = refl
