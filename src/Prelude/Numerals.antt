-- ===== src/Prelude/Numerals.antt =====
-- `String(n)` of a natural number: its decimal digits.
use Prim.Native.Nat.{ℕ, zero, suc, ◌+◌, ◌/◌, ◌%◌, ◌≤◌}
use mathlib.Core.Logic.{inl, inr}
use mathlib.Core.List.{[], ◌∷◌, ◌++◌}
use native.Mathlib.Omega.{arith}
use tekrion.Prelude.Tests.{ltb, if◌then◌else◌, Bool-cases}
use tekrion.Prelude.Lists.{All, All-append}
use tekrion.Prelude.Strings.{Text}

-- The digits of a number, where one more than the number is fuel enough.
unfoldable pub digits : ℕ → ℕ → Text
digits zero n = []
digits (suc fuel) n =
    let more = digits fuel (n / 10) in
    if ltb n 10 then (48 + n) ∷ [] else more ++ (48 + n % 10) ∷ []

unfoldable pub numeral : ℕ → Text
unfolding digits
numeral n = digits (suc n) n

abbrev pub IsDigit : ℕ → Type 0
IsDigit c = (48 ≤ c) × (c ≤ 57)

digits-IsDigit : (fuel n : ℕ) → All IsDigit (digits fuel n)
unfolding digits
digits-IsDigit zero n = tt
digits-IsDigit (suc fuel) n = elim (Bool-cases (ltb n 10)) [
  | inl small ↦ rw small ((ground arith, ground arith), tt)
  | inr large ↦ rw large (
      All-append IsDigit (digits fuel (n / 10)) ((48 + n % 10) ∷ []) (digits-IsDigit fuel (n / 10))
        ((omega arith, omega arith), tt))
]

pub numeral-IsDigit : (n : ℕ) → All IsDigit (numeral n)
unfolding numeral
numeral-IsDigit n = digits-IsDigit (suc n) n
