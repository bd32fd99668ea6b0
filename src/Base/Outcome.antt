-- ===== src/Base/Outcome.antt =====
-- Exceptions as values, with the `do` notation.
use mathlib.Core.Path.{◌≡◌, refl}
use mathlib.Core.Bool.{Bool, true, false}
use mathlib.Core.Option.{Option, none, some}

-- `runtime_error` is a `throw` of the code, `out_of_range` what `vector::at` throws,
-- `bad_variant_access` what `std::get` throws, and `undefined` an access outside a span, which C++
-- leaves undefined, and
-- `assertion` a failed `assert`.
pub data Error : Type 0 where
  runtime_error out_of_range bad_variant_access undefined assertion : Error
  -- The fuel of a loop of the model ran out.
  out_of_fuel : Error

pub data Result {ℓ} (A : Type ℓ) : Type ℓ where
  throw : Error → Result A
  ok : A → Result A

-- A statement that throws ends the sequence.
module _ {ℓ κ} {A : Type ℓ} {B : Type κ} where
  infixl 5 ◌>>=◌
  abbrev pub ◌>>=◌ : Result A → (A → Result B) → Result B
  throw e >>= next = throw e
  ok value >>= next = next value

  -- A sequence that returns a value has gone through its first statement.
  pub >>=-eq-ok :
      (first : Result A) (next : A → Result B) {result : B}
      → (first >>= next) ≡ ok result
      → (value : A) × (first ≡ ok value) × (next value ≡ ok result)
  >>=-eq-ok (throw e) next returned = cc
  >>=-eq-ok (ok value) next returned = (value, refl, returned)

infixl 5 ◌>>◌
abbrev pub ◌>>◌ {κ} : {B : Type κ} → Result (Unit {0}) → Result B → Result B
throw e >> rest = throw e
ok done >> rest = rest

-- `if (test) throw e;`
abbrev pub throw_if : Bool → Error → Result (Unit {0})
throw_if test e = elim test [ false ↦ ok tt | true ↦ throw e ]

-- `vector::at`
abbrev pub at {ℓ} : {A : Type ℓ} → Option A → Result A
at (some a) = ok a
at none = throw Error.out_of_range

pub ok-injective {ℓ} : {A : Type ℓ} {a b : A} → ok a ≡ ok b → a ≡ b
ok-injective returned = cc
