-- ===== src/Base/Decimal.antt =====
-- `str(n)` of a number from 0 on: its decimal digits.
use Prim.Native.Nat.{ℕ, zero, suc, ◌+◌, ◌-◌, ◌*◌, ◌/◌, ◌%◌, ◌<◌}
use mathlib.Core.Path.{◌≡◌, ap, ◌∙◌}
use mathlib.Core.Logic.{inl, inr}
use mathlib.Core.List.{[], ◌∷◌}
use native.Mathlib.Omega.{arith}
use policyd_py.Base.Tests.{◌==◌, if◌then◌else◌, Bool-cases}
use policyd_py.Base.Texts.{Text}

-- The digits of `n` before `acc`. Fuel above `n` is enough.
unfoldable pub digits_before : ℕ → ℕ → Text → Text
digits_before zero n acc = acc
digits_before (suc fuel) n acc =
    let digits = (48 + n % 10) ∷ acc in
    let more = digits_before fuel (n / 10) digits in if n / 10 == 0 then digits else more

unfoldable pub decimal : ℕ → Text
unfolding digits_before
decimal n = digits_before (suc n) n []

-- The number that decimal digits denote, read on from `acc`.
unfoldable pub read_digits : ℕ → Text → ℕ
read_digits acc [] = acc
read_digits acc (c ∷ s) = read_digits (acc * 10 + (c - 48)) s

read_digits_before :
    (fuel n : ℕ) (acc : Text)
    → n < fuel
    → read_digits 0 (digits_before fuel n acc) ≡ read_digits n acc
unfolding digits_before read_digits
read_digits_before zero n acc h = elim h [ ]
read_digits_before (suc fuel) n acc h = elim (Bool-cases (n / 10 == 0)) [
  | inl last ↦ rw last (ap (λ (k : ℕ). read_digits k acc) (ground arith))
  | inr more ↦ rw more (
      read_digits_before fuel (n / 10) ((48 + n % 10) ∷ acc) (ground arith)
      ∙ ap (λ (k : ℕ). read_digits k acc) (omega arith))
]

-- The digits that are printed denote the number.
pub read-decimal : (n : ℕ) → read_digits 0 (decimal n) ≡ n
unfolding decimal read_digits
read-decimal n = read_digits_before (suc n) n [] (omega arith)
