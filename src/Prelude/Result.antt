-- ===== src/Prelude/Result.antt =====
-- A Go function that returns a value or an error.
use mathlib.Core.Path.{◌≡◌, refl}
use mathlib.Core.Logic.{◌⊎◌, inl, inr}

pub data Result (E A : Type 0) : Type 0 where
  ok : A → Result E A
  err : E → Result E A

pub Result-cases :
    {E A : Type 0} (r : Result E A) → ((e : E) × (r ≡ err e)) ⊎ ((a : A) × (r ≡ ok a))
Result-cases (err e) = inl (e, refl)
Result-cases (ok a) = inr (a, refl)

-- The rest of a function runs where there is no error.
infixl 5 ◌>>=◌
abbrev pub ◌>>=◌ : {E A B : Type 0} → Result E A → (A → Result E B) → Result E B
result >>= rest = elim result [ err e ↦ err e | ok a ↦ rest a ]

-- What succeeds as a whole has a first part that succeeds.
pub >>=-eq-ok :
    {E A B : Type 0} {b : B} (result : Result E A) (rest : A → Result E B)
    → (result >>= rest) ≡ ok b
    → (a : A) × (result ≡ ok a) × (rest a ≡ ok b)
>>=-eq-ok (err e) rest whole = cc
>>=-eq-ok (ok first) rest whole = (first, refl, whole)
