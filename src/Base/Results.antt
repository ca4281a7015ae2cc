-- ===== src/Base/Results.antt =====
-- C++ and Ruby exceptions as values. The exception classes carry no message.

pub data Error : Type 0 where
  invalid_argument runtime_error out_of_range length_error range_error type_error : Error
  -- A failed `assert`, or behaviour that the language leaves undefined.
  fault : Error

-- What a call returns or throws.
pub data Result {ℓ} (A : Type ℓ) : Type ℓ where
  err : Error → Result A
  ok : A → Result A

-- The next statement runs only if nothing was thrown.
infixl 5 ◌>>=◌
abbrev pub ◌>>=◌ {ℓ κ} : {A : Type ℓ} {B : Type κ} → Result A → (A → Result B) → Result B
◌>>=◌ r next = elim r [ err thrown ↦ err thrown | ok result ↦ next result ]
