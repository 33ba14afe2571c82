-- ===== src/Result.antt =====
-- bootstrap/errors.c: the errors that the compiler throws, and the outcome of a fallible run.
use l.Prelude.{ℕ, ◌≡◌, ◌≢◌, refl, Bool, true, false, Option, Chars, if◌then◌else◌}
use mathlib.Core.Path.{subst}
use l.Fragment.{Fragment}

-- One constructor for each `throw_…` function, with the fields of its error structure; a pointer to
-- an expression is its address.
pub data Error : Type 0 where
  arguments : Error
  special_form : (expression_list : Fragment) (subexpression_list : Option Fragment) → Error
  unexpected_character : (character position : ℕ) → Error
  multiple_definition : (reference_value : Chars) → Error
  object : Error
  missing_file : (path : Chars) → Error
  undefined_symbol : (symbol_value : Chars) → Error
  unification : (lhs rhs : Fragment) (expr : ℕ) → Error
  unsupported_intrinsics : (name : Chars) → Error

-- `thrown e` is a long jump to the handler with the error `e`; `undefined` is a read outside an
-- array or a loop that C leaves without an end; `out_of_fuel` has no counterpart in the program.
pub data Result {ℓ} (A : Type ℓ) : Type ℓ where
  ok : A → Result A
  thrown : Error → Result A
  undefined out_of_fuel : Result A

infixl 5 ◌>>=◌
abbrev pub ◌>>=◌ {ℓ κ} : {A : Type ℓ} {B : Type κ} → Result A → (A → Result B) → Result B
ok a >>= f = f a
thrown e >>= f = thrown e
undefined >>= f = undefined
out_of_fuel >>= f = out_of_fuel

-- A run that kept within its fuel: `P` holds of its value, `E` of the error that it threw, and `F`
-- where it is undefined.
pub data Ensures {ℓ κ} {A : Type ℓ} (P : A → Type κ) (E : Error → Type 0) (F : Type 0)
    : Result A → Type (ℓ ⊔ κ) where
  returns : {a : A} → P a → Ensures P E F (ok a)
  throws : {e : Error} → E e → Ensures P E F (thrown e)
  faults : F → Ensures P E F undefined

module _ {ℓ κ} {A : Type ℓ} {P : A → Type κ} {E : Error → Type 0} {F : Type 0} where
  pub Ensures-ok : {r : Result A} {a : A} → Ensures P E F r → r ≡ ok a → P a
  Ensures-ok (returns h) e = subst P (cc) h
  Ensures-ok (throws h) e = cc
  Ensures-ok (faults h) e = cc

  pub Ensures-thrown : {r : Result A} {e : Error} → Ensures P E F r → r ≡ thrown e → E e
  Ensures-thrown (returns h) e = cc
  Ensures-thrown (throws h) e = subst E (cc) h
  Ensures-thrown (faults h) e = cc

  pub Ensures-out_of_fuel : {r : Result A} → Ensures P E F r → r ≢ out_of_fuel
  Ensures-out_of_fuel (returns h) = cc
  Ensures-out_of_fuel (throws h) = cc
  Ensures-out_of_fuel (faults h) = cc

  pub Ensures-if :
      (b : Bool) {x y : Result A}
      → (b ≡ true → Ensures P E F x)
      → (b ≡ false → Ensures P E F y)
      → Ensures P E F (if b then x else y)
  Ensures-if true hx hy = hx refl
  Ensures-if false hx hy = hy refl

  pub Ensures-bind {ℓ' κ'} :
      {B : Type ℓ'} {Q : B → Type κ'} {r : Result A} {f : A → Result B}
      → Ensures P E F r
      → ((a : A) → P a → Ensures Q E F (f a))
      → Ensures Q E F (r >>= f)
  Ensures-bind (returns {a} h) k = k a h
  Ensures-bind (throws h) k = throws h
  Ensures-bind (faults h) k = faults h

  pub Ensures-mono {κ'} :
      {Q : A → Type κ'} {r : Result A} → Ensures P E F r → ((a : A) → P a → Q a) → Ensures Q E F r
  Ensures-mono (returns {a} h) k = returns (k a h)
  Ensures-mono (throws h) k = throws h
  Ensures-mono (faults h) k = faults h

-- `P` holds of the value, if the run has one.
pub data Yields {ℓ κ} {A : Type ℓ} (P : A → Type κ) : Result A → Type (ℓ ⊔ κ) where
  value : {a : A} → P a → Yields P (ok a)
  no_value_thrown : {e : Error} → Yields P (thrown e)
  no_value_undefined : Yields P undefined
  no_value_out_of_fuel : Yields P out_of_fuel

module _ {ℓ κ} {A : Type ℓ} {P : A → Type κ} where
  pub Yields-ok : {r : Result A} {a : A} → Yields P r → r ≡ ok a → P a
  Yields-ok (value h) e = subst P (cc) h
  Yields-ok no_value_thrown e = cc
  Yields-ok no_value_undefined e = cc
  Yields-ok no_value_out_of_fuel e = cc

  pub Yields-if :
      (b : Bool) {x y : Result A}
      → (b ≡ true → Yields P x)
      → (b ≡ false → Yields P y)
      → Yields P (if b then x else y)
  Yields-if true hx hy = hx refl
  Yields-if false hx hy = hy refl

  pub Yields-bind {ℓ' κ'} :
      {B : Type ℓ'} {Q : B → Type κ'} {r : Result A} {f : A → Result B}
      → Yields P r
      → ((a : A) → P a → Yields Q (f a))
      → Yields Q (r >>= f)
  Yields-bind (value {a} h) k = k a h
  Yields-bind no_value_thrown k = no_value_thrown
  Yields-bind no_value_undefined k = no_value_undefined
  Yields-bind no_value_out_of_fuel k = no_value_out_of_fuel

  pub Yields-mono {κ'} :
      {Q : A → Type κ'} {r : Result A} → Yields P r → ((a : A) → P a → Yields Q (ok a)) → Yields Q r
  Yields-mono (value {a} h) k = k a h
  Yields-mono no_value_thrown k = no_value_thrown
  Yields-mono no_value_undefined k = no_value_undefined
  Yields-mono no_value_out_of_fuel k = no_value_out_of_fuel
