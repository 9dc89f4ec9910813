-- ===== src/Prelude/Decimal.antt =====
-- `str` of a number, its decimal digits, and `int` of a text.
use sdk_local_manager.Prelude.Tests.{ltb, Bool-cases, if◌then◌else◌}
use sdk_local_manager.Prelude.Lists.{all}
use sdk_local_manager.Prelude.Text.{Text, to_number, number_from, is_digit}
use Prim.Native.Nat.{ℕ, zero, suc, ◌+◌, ◌/◌, ◌%◌, ◌≤◌}
use mathlib.Core.Path.{◌≡◌, ap, ◌∙◌}
use mathlib.Core.Logic.{inl, inr}
use mathlib.Core.Bool.{true, false}
use mathlib.Core.Option.{Option, none, some}
use mathlib.Core.List.{[], ◌∷◌}
use native.Mathlib.Omega.{arith}

-- At most `fuel` digits, the last one first put before `acc`.
unfoldable pub digits_before : ℕ → ℕ → Text → Text
digits_before zero n acc = acc
digits_before (suc fuel) n acc = elim (ltb n 10) as (λ _. Text) [
  | true ↦ (b'0' + n) ∷ acc
  | false ↦ digits_before fuel (n / 10) ((b'0' + n % 10) ∷ acc)
]

unfoldable pub decimal : ℕ → Text
unfolding digits_before
decimal n = digits_before (suc n) n []

number_from-digits_before :
    (fuel n : ℕ) (acc : Text)
    → n ≤ fuel
    → number_from 0 (digits_before (suc fuel) n acc) ≡ number_from n acc
unfolding digits_before
number_from-digits_before zero n acc h = ground arith
number_from-digits_before (suc fuel) n acc h = elim (Bool-cases (ltb n 10)) [
  | inl e ↦ ground (arith, e)
  | inr e ↦
      ap
        (λ b. number_from 0 (elim b as (λ _. Text) [
          | true ↦ (b'0' + n) ∷ acc
          | false ↦ digits_before (suc fuel) (n / 10) ((b'0' + n % 10) ∷ acc)
        ]))
        e
      ∙ number_from-digits_before fuel (n / 10) ((b'0' + n % 10) ∷ acc) (ground (arith, e))
      ∙ ap (λ k. number_from k acc) (omega arith)
]

pub to_number-decimal : (n : ℕ) → to_number (decimal n) ≡ n
unfolding to_number decimal
to_number-decimal n = number_from-digits_before n n [] (omega arith)

-- `int(part)`, for a text of decimal digits; the code raises for another.
unfoldable pub int_of : Text → Option ℕ
int_of [] = none
int_of (c ∷ t) = if all is_digit (c ∷ t) then some (to_number (c ∷ t)) else none
