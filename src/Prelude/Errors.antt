-- ===== src/Prelude/Errors.antt =====
-- Python's exceptions as values: what each raising statement of the program can raise.
use mathlib.Core.Path.{◌≡◌, refl}
use mathlib.Core.Bool.{Bool, true, false}
use mathlib.Core.Option.{Option, none, some}

-- Two are no exceptions of the program: `out_of_fuel` marks a loop cut short by its fuel, and
-- `below_zero` a number that the tables of this model cannot hold.
pub data Error : Type 0 where
  dns_error struct_error index_error key_error value_error type_error unicode_error : Error
  integrity_error : Error
  out_of_fuel below_zero : Error

-- what a Python expression comes to: a value, or an exception that is raised
pub data Result {ℓ} (V : Type ℓ) : Type ℓ where
  err : Error → Result V
  ok : V → Result V

abbrev pub or_raise {ℓ} : {V : Type ℓ} → Error → Option V → Result V
or_raise e (some v) = ok v
or_raise e none = err e

-- `if not test: raise e`
abbrev pub guard : Bool → Error → Result (Unit {0})
guard holds e = elim holds [ false ↦ err e | true ↦ ok tt ]

infixl 5 ◌>>=◌ ◌>>◌
abbrev pub ◌>>=◌ {ℓ κ} : {V : Type ℓ} {W : Type κ} → Result V → (V → Result W) → Result W
err e >>= next = err e
ok v >>= next = next v

abbrev pub ◌>>◌ {κ} : {W : Type κ} → Result (Unit {0}) → Result W → Result W
first >> second = first >>= (λ done. second)

-- A chain that ends well has a first part that ended well, with the value that the rest went on from.
pub >>=-eq-ok {ℓ κ} :
    {V : Type ℓ} {W : Type κ} (first : Result V) (next : V → Result W) {w : W}
    → (first >>= next) ≡ ok w
    → (v : V) × (first ≡ ok v) × (next v ≡ ok w)
>>=-eq-ok (err e) next ended = cc
>>=-eq-ok (ok v) next ended = (v, refl, ended)
