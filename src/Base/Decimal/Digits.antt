-- ===== src/Base/Decimal/Digits.antt =====
-- Two numbers that are printed alike are the same.
use text.Mathlib.TextLemmas.{append_inj, length-append}
use vnode.Base.{
  ℕ, zero, suc, ◌/◌, ◌%◌, ◌<◌, ◌≤◌, ◌≡◌, refl, sym, ap, ◌∙◌, inl, inr, String, ◌==◌, if◌then◌else◌,
  ltb, Bool-cases, arith,
}
use Prim.Native.String.{count as length}
use vnode.Base.Decimal.{digit, show_loop, show_ℕ}

value : String → ℕ
value s =
    if s == "0"
    then 0
    else if s == "1"
    then 1
    else if s == "2"
    then 2
    else if s == "3"
    then 3
    else if s == "4"
    then 4
    else if s == "5"
    then 5
    else if s == "6"
    then 6
    else if s == "7"
    then 7
    else if s == "8"
    then 8
    else 9

value-digit : (n : ℕ) → n < 10 → value (digit n) ≡ n
unfolding value digit
value-digit zero h = refl
value-digit (suc zero) h = refl
value-digit (suc (suc zero)) h = refl
value-digit (suc (suc (suc zero))) h = refl
value-digit (suc (suc (suc (suc zero)))) h = refl
value-digit (suc (suc (suc (suc (suc zero))))) h = refl
value-digit (suc (suc (suc (suc (suc (suc zero)))))) h = refl
value-digit (suc (suc (suc (suc (suc (suc (suc zero))))))) h = refl
value-digit (suc (suc (suc (suc (suc (suc (suc (suc zero)))))))) h = refl
value-digit (suc (suc (suc (suc (suc (suc (suc (suc (suc zero))))))))) h = refl
value-digit (suc (suc (suc (suc (suc (suc (suc (suc (suc (suc n)))))))))) h = absurd (omega arith)

digit_one : (n : ℕ) → n < 10 → length (digit n) ≡ 1
unfolding digit
digit_one zero h = refl
digit_one (suc zero) h = refl
digit_one (suc (suc zero)) h = refl
digit_one (suc (suc (suc zero))) h = refl
digit_one (suc (suc (suc (suc zero)))) h = refl
digit_one (suc (suc (suc (suc (suc zero))))) h = refl
digit_one (suc (suc (suc (suc (suc (suc zero)))))) h = refl
digit_one (suc (suc (suc (suc (suc (suc (suc zero))))))) h = refl
digit_one (suc (suc (suc (suc (suc (suc (suc (suc zero)))))))) h = refl
digit_one (suc (suc (suc (suc (suc (suc (suc (suc (suc zero))))))))) h = refl
digit_one (suc (suc (suc (suc (suc (suc (suc (suc (suc (suc n)))))))))) h = absurd (omega arith)

digits_same : (n m : ℕ) → n < 10 → m < 10 → digit n ≡ digit m → n ≡ m
digits_same n m h k e = sym (value-digit n h) ∙ ap value e ∙ value-digit m k

show_some : (fuel n : ℕ) → n < fuel → 1 ≤ length (show_loop fuel n)
unfolding show_loop
show_some zero n h = absurd (omega arith)
show_some (suc fuel) n h = elim (Bool-cases (ltb n 10)) [
  | inl small ↦ rw small (let one = digit_one n (ground (arith, small)) in omega (arith, one))
  | inr large ↦ rw large (
      let one = digit_one (n % 10) (omega arith) in
      let both = length-append (show_loop fuel (n / 10)) (digit (n % 10)) in
      omega (arith, one, both))
]

show_loop-injective : (f g n m : ℕ) → n < f → m < g → show_loop f n ≡ show_loop g m → n ≡ m
unfolding show_loop
show_loop-injective zero g n m h k = λ e. absurd (omega arith)
show_loop-injective (suc f) zero n m h k = λ e. absurd (omega arith)
show_loop-injective (suc f) (suc g) n m h k =
    let one_n = digit_one (n % 10) (omega arith) in
    let one_m = digit_one (m % 10) (omega arith) in
    let both_n = length-append (show_loop f (n / 10)) (digit (n % 10)) in
    let both_m = length-append (show_loop g (m / 10)) (digit (m % 10)) in
    elim (Bool-cases (ltb n 10)) [
      | inl small_n ↦
          let ln : n < 10 = ground (arith, small_n) in
          elim (Bool-cases (ltb m 10)) [
            | inl small_m ↦
                rw (small_n, small_m) (λ e. digits_same n m ln (ground (arith, small_m)) e)
            | inr large_m ↦
                rw (small_n, large_m)
                  (λ e.
                    let le : 10 ≤ m = ground (arith, large_m) in
                    absurd (
                      omega (
                        arith,
                        digit_one n ln,
                        both_m,
                        one_m,
                        show_some g (m / 10) (omega arith),
                        ap length e,
                      )))
          ]
      | inr large_n ↦
          let ln : 10 ≤ n = ground (arith, large_n) in
          elim (Bool-cases (ltb m 10)) [
            | inl small_m ↦
                rw (large_n, small_m)
                  (λ e.
                    let lm : m < 10 = ground (arith, small_m) in
                    absurd (
                      omega (
                        arith,
                        digit_one m lm,
                        both_n,
                        one_n,
                        show_some f (n / 10) (omega arith),
                        ap length e,
                      )))
            | inr large_m ↦
                rw (large_n, large_m)
                  (λ e.
                    let lm : 10 ≤ m = ground (arith, large_m) in
                    let (heads, tails) =
                      append_inj e (omega (arith, both_n, both_m, one_n, one_m, ap length e)) in
                    let front =
                      show_loop-injective f g (n / 10) (m / 10) (omega arith) (omega arith) heads in
                    let last = digits_same (n % 10) (m % 10) (omega arith) (omega arith) tails in
                    omega (arith, front, last))
          ]
    ]

pub show_ℕ-injective : (n m : ℕ) → show_ℕ n ≡ show_ℕ m → n ≡ m
unfolding show_ℕ
show_ℕ-injective n m e = show_loop-injective (suc n) (suc m) n m (omega arith) (omega arith) e
