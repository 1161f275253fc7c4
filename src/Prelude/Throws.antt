-- ===== src/Prelude/Throws.antt =====
-- A call that returns a value or throws an error.
use mathlib.Core.Path.{◌≡◌, refl}
use mathlib.Core.Bool.{Bool, true, false}

pub data Result {ℓ} (E : Type 0) (A : Type ℓ) : Type ℓ where
  err : (thrown : E) → Result E A
  ok : (returned : A) → Result E A

infixl 5 ◌>>◌ ◌>>=◌
-- The calls after one that throws are not made.
abbrev pub ◌>>=◌ {κ ℓ} :
    {E : Type 0} {A : Type κ} {B : Type ℓ} → Result E A → (A → Result E B) → Result E B
err thrown >>= next = err thrown
ok returned >>= next = next returned

-- `if (condition) throw error`.
abbrev pub throw_if : {E : Type 0} → Bool → E → Result E (Unit {0})
throw_if false thrown = ok tt
throw_if true thrown = err thrown

-- One statement after the other.
abbrev pub ◌>>◌ {κ} : {E : Type 0} {C : Type κ} → Result E (Unit {0}) → Result E C → Result E C
statement >> next = statement >>= λ done. next

pub >>=-eq-ok {κ ℓ} :
    {E : Type 0} {A : Type κ} {B : Type ℓ} (call : Result E A) (next : A → Result E B) {b : B}
    → (call >>= next) ≡ ok b
    → (a : A) × (call ≡ ok a) × (next a ≡ ok b)
>>=-eq-ok (err thrown) next returns = cc
>>=-eq-ok (ok returned) next returns = (returned, refl, returns)
