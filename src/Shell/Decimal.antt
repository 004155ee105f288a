-- ===== src/Shell/Decimal.antt =====
-- The numbers that kernel/core/shell.c prints.
use flare_os.Prelude.{
  ℕ, zero, suc, ◌+◌, ◌-◌, ◌*◌, ◌/◌, ◌%◌, ◌^◌, ◌<◌, ◌≡◌, ap, ◌∙◌, List, [], ◌∷◌, arith, ◌==◌, inl,
  inr, Bool-cases,
}
use native.Mathlib.Nat.{pow-succ'}
use flare_os.Shell.Text.{digits_from, decimal}

-- The number that decimal digits stand for, behind a number.
abbrev pub value_from : ℕ → List ℕ → ℕ
value_from n [] = n
value_from n (d ∷ digits) = value_from (n * 10 + (d - b'0')) digits

digit_left : (left value : ℕ) → value < 10 ^ suc left → value / 10 < 10 ^ left
digit_left left value h =
    let power : 10 ^ suc left ≡ 10 * 10 ^ left = pow-succ' 10 left in omega (arith, power)

digits_from-value :
    (left value : ℕ) (digits : List ℕ)
    → value < 10 ^ left
    → value_from 0 (digits_from left value digits) ≡ value_from value digits
unfolding digits_from
digits_from-value zero value digits h = ap (λ (n : ℕ). value_from n digits) (omega arith)
digits_from-value (suc left) value digits h = elim (Bool-cases (value / 10 == 0)) [
  | inl last ↦ rw last (ap (λ (n : ℕ). value_from n digits) (ground arith))
  | inr more ↦ rw more (
      digits_from-value left (value / 10) ((b'0' + value % 10) ∷ digits) (digit_left left value h)
      ∙ ap (λ (n : ℕ). value_from n digits) (omega arith))
]

-- The digits that are printed for a u64 stand for that number.
pub decimal-value : (value : ℕ) → value < 2 ^ 64 → value_from 0 (decimal value) ≡ value
unfolding decimal
decimal-value value h = digits_from-value 24 value [] (omega arith)
