-- ===== src/Prelude/Result.antt =====
-- Results of fallible code: a value or the error that was thrown.
use mathlib.Core.Bool.{Bool, true, false}
use mathlib.Core.Path.{◌≡◌, refl}

pub data Result {ℓ} (Thrown : Type 0) (Value : Type ℓ) : Type ℓ where
  err : Thrown → Result Thrown Value
  ok : Value → Result Thrown Value

module _ {ℓ} {E : Type 0} {A : Type ℓ} where
  infixl 5 ◌>>=◌
  -- An error ends the block, a value goes on to the next line.
  abbrev pub ◌>>=◌ {κ} : {B : Type κ} → Result E A → (A → Result E B) → Result E B
  ◌>>=◌ result next = elim result [ err thrown ↦ err thrown | ok value ↦ next value ]

  abbrev pub is_ok : Result E A → Bool
  is_ok (err thrown) = false
  is_ok (ok value) = true

  pub ok_of_is_ok : (result : Result E A) → is_ok result ≡ true → (value : A) × (result ≡ ok value)
  ok_of_is_ok (err thrown) h = cc
  ok_of_is_ok (ok value) h = (value, refl)

  -- A block that ends with a value has one from its first line.
  pub ok_of_bind {κ} :
      {B : Type κ} (result : Result E A) (next : A → Result E B) {last : B}
      → (result >>= next) ≡ ok last
      → (value : A) × (result ≡ ok value) × (next value ≡ ok last)
  ok_of_bind (err thrown) next h = cc
  ok_of_bind (ok value) next h = (value, refl, h)
