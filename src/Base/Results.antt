-- ===== src/Base/Results.antt =====
-- Code that may raise. A `BootstrapError` carries a message, which is a literal, or a literal with
-- a text that the f-string inserts at its end; a `KeyError` is what `d[key]` raises,
-- a `RecursionError` comes when the interpreter's limit on nested calls is reached, and a
-- `FileNotFoundError` from a name that a directory does not have.
use Prim.Native.String.{String}
use mathlib.Core.Path.{◌≡◌, refl, subst}
use forza_motorsport_linux.Base.Tests.{if◌then◌else◌}
use mathlib.Core.Logic.{◌⊎◌, inl, inr}
use mathlib.Core.Bool.{Bool, true, false}
use forza_motorsport_linux.Base.Texts.{Text}

pub data Error : Type 0 where
  message : String → Error
  about : String → Text → Error
  key_error : String → Error
  recursion_error : Error
  file_not_found : Text → Error

pub data Result {ℓ} (A : Type ℓ) : Type ℓ where
  err : Error → Result A
  ok : A → Result A

-- An error ends the block.
infixl 5 ◌>>=◌
abbrev pub ◌>>=◌ {κ ℓ} : {A : Type κ} {B : Type ℓ} (m : Result A) (rest : A → Result B) → Result B
err raised >>= rest = err raised
ok value >>= rest = rest value

infixl 5 ◌>>◌
abbrev pub ◌>>◌ {ℓ} : {B : Type ℓ} (check : Result (Unit {0})) (rest : Result B) → Result B
check >> rest = check >>= λ _. rest

-- if test: raise error
abbrev pub refuse_if : Bool → Error → Result (Unit {0})
refuse_if true error = err error
refuse_if false error = ok tt

-- if test: raise BootstrapError(text)
abbrev pub raise_if : Bool → String → Result (Unit {0})
raise_if test text = refuse_if test (message text)

abbrev pub raise {ℓ} : {A : Type ℓ} → String → Result A
raise text = err (message text)

pub ok-injective {ℓ} : {A : Type ℓ} {a b : A} → ok a ≡ ok b → a ≡ b
ok-injective h = cc

pub err-injective {ℓ} : (A : Type ℓ) {e d : Error} → ◌≡◌ {A = Result A} (err e) (err d) → e ≡ d
err-injective A h = cc

pub Result-cases {ℓ} :
    {A : Type ℓ} (r : Result A) → ((e : Error) × (r ≡ err e)) ⊎ ((a : A) × (r ≡ ok a))
Result-cases (err e) = inl (e, refl)
Result-cases (ok a) = inr (a, refl)

-- Every result satisfies `P`; an error satisfies anything. One rule for each way to build a result.
pub record Ensures {ℓ κ} {A : Type ℓ} (P : A → Type κ) (r : Result A) : Type (ℓ ⊔ κ) where
  pub at : (a : A) → r ≡ ok a → P a

module _ {ℓ κ} {B : Type ℓ} {P : B → Type κ} where
  pub Ensures-ok : (b : B) → P b → Ensures P (ok b)
  Ensures-ok b h = record { at = λ a e. subst P (ok-injective e) h }

  pub Ensures-err : (e : Error) → Ensures P (err e)
  Ensures-err e = record { at = λ a h. cc }

  pub Ensures-if :
      (test : Bool) (m n : Result B)
      → (test ≡ true → Ensures P m)
      → (test ≡ false → Ensures P n)
      → Ensures P (if test then m else n)
  Ensures-if true m n hm hn = hm refl
  Ensures-if false m n hm hn = hn refl

module _ {ℓ κ ν} {A : Type ν} {B : Type ℓ} {P : B → Type κ} where
  -- the rest of the block may use that `m` did not raise
  pub Ensures-bind :
      (m : Result A) (f : A → Result B)
      → ((a : A) → m ≡ ok a → Ensures P (f a))
      → Ensures P (m >>= f)
  Ensures-bind (ok a) f h = h a refl
  Ensures-bind (err e) f h = Ensures-err e

-- A block that succeeded has a value of its first action, and a rest that succeeded on it.
module _ {ℓ κ} {A : Type ℓ} {B : Type κ} where
  pub >>=-eq-ok :
      (m : Result A) (rest : A → Result B) {b : B}
      → (m >>= rest) ≡ ok b
      → (value : A) × (m ≡ ok value) × (rest value ≡ ok b)
  >>=-eq-ok (err raised) rest h = cc
  >>=-eq-ok (ok value) rest h = (value, refl, h)

-- A check that did not raise has failed its test.
pub refuse_if-ok :
    (test : Bool) (error : Error) (u : Unit {0}) → refuse_if test error ≡ ok u → test ≡ false
refuse_if-ok true error u h = cc
refuse_if-ok false error u h = refl

-- The error, if any, is a `BootstrapError`.
abbrev pub IsBootstrapError : Error → Type 0
IsBootstrapError (key_error key) = ⊥
IsBootstrapError recursion_error = ⊥
IsBootstrapError (file_not_found name) = ⊥
IsBootstrapError _ = Unit

pub record Raises {ℓ κ} {A : Type ℓ} (P : Error → Type κ) (r : Result A) : Type (ℓ ⊔ κ) where
  pub at : (e : Error) → r ≡ err e → P e

module _ {ℓ κ} {A : Type ℓ} {P : Error → Type κ} where
  pub Raises-ok : (a : A) → Raises P (ok a)
  Raises-ok a = record { at = λ e h. cc }

  pub Raises-err : (e : Error) → P e → Raises {A = A} P (err e)
  Raises-err e p = record { at = λ e' h. subst P (err-injective A h) p }

module _ {ℓ κ ν} {A : Type ℓ} {B : Type ν} {P : Error → Type κ} where
  pub Raises-bind :
      (m : Result A) (f : A → Result B)
      → Raises P m
      → ((a : A) → m ≡ ok a → Raises P (f a))
      → Raises P (m >>= f)
  Raises-bind (ok a) f hm h = h a refl
  Raises-bind (err e) f hm h = Raises-err e (hm.at e refl)

pub Raises-refuse_if {κ} :
    {P : Error → Type κ} (test : Bool) (e : Error) → P e → Raises P (refuse_if test e)
Raises-refuse_if true e p = Raises-err e p
Raises-refuse_if false e p = Raises-ok tt
