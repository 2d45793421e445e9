-- ===== src/Base/Outcome.antt =====
-- A call that may raise, as a value.
use Prim.Native.String.{String}
use mathlib.Core.Path.{◌≡◌, refl}
use mathlib.Core.Bool.{Bool, true, false}

-- The exceptions that the modelled code raises, with their messages. `recursion_error` is Python's,
-- raised when the interpreter's recursion limit is passed, and `index_error`
-- by `[-1]` of an empty list. `out_of_fuel` is the model's own: a loop
-- that has used up the rounds it was given.
pub data Error : Type 0 where
  value_error : String → Error
  key_error : String → Error
  overflow_error : String → Error
  containment_violation : String → Error
  integrity_error : String → Error
  recursion_error index_error out_of_fuel : Error

-- What a call leaves: the exception that it raised, or the value that it returned.
pub data Result {ℓ} (A : Type ℓ) : Type ℓ where
  err : (raised : Error) → Result A
  ok : (returned : A) → Result A

-- `try: ...; True except: False`
abbrev pub succeeds {ℓ} : {A : Type ℓ} → Result A → Bool
succeeds (ok _) = true
succeeds (err _) = false

module _ {ℓ κ} {A : Type ℓ} {B : Type κ} where
  infixl 5 ◌>>=◌
  -- one statement after another, the second with the value of the first
  abbrev pub ◌>>=◌ : Result A → (A → Result B) → Result B
  err raised >>= next = err raised
  ok returned >>= next = next returned

  -- A bind whose first call did not raise.
  pub >>=-ok :
      (first : Result A) (next : A → Result B) (a : A) → first ≡ ok a → (first >>= next) ≡ next a
  >>=-ok first next a h = rw h refl

  -- A bind that did not raise: what its first call returned, and what the rest returned of it.
  pub >>=-eq-ok :
      (first : Result A) (next : A → Result B) {b : B}
      → (first >>= next) ≡ ok b
      → (a : A) × (first ≡ ok a) × (next a ≡ ok b)
  >>=-eq-ok (err raised) next h = cc
  >>=-eq-ok (ok returned) next h = (returned, refl, h)

-- What a validation returns: nothing, or what it raises.
abbrev pub Check : Type 0
Check = Result (Unit {0})

-- `if b: raise e`
abbrev pub raise_if : Bool → Error → Check
raise_if true e = err e
raise_if false e = ok tt

pub raise_if-eq-ok : (b : Bool) (e : Error) → raise_if b e ≡ ok tt → b ≡ false
raise_if-eq-ok true e h = cc
raise_if-eq-ok false e h = refl

module _ {ℓ} {B : Type ℓ} where
  infixl 5 ◌>>◌
  abbrev pub ◌>>◌ : Check → Result B → Result B
  check >> rest = check >>= λ _. rest

  -- A validation and the rest, of which neither raised.
  pub >>-eq-ok :
      (check : Check) (rest : Result B) {b : B}
      → (check >> rest) ≡ ok b
      → (check ≡ ok tt) × (rest ≡ ok b)
  >>-eq-ok (err raised) rest h = cc
  >>-eq-ok (ok tt) rest h = (refl, h)
