-- ===== src/Base/Equality.antt =====
-- Python's `==` and `in`, for every type whose equality can be decided.
use Prim.Native.Nat.{ℕ}
use Prim.Native.String.{String}
use mathlib.Core.Path.{◌≡◌, refl}
use mathlib.Core.Logic.{ite, dite, ◌↔◌, ◌≢◌, inl, inr}
use mathlib.Core.Bool.{Bool, true, false, ◌||◌, Bool-discrete}
use mathlib.Core.Option.{Option}
use mathlib.Core.List.{List, [], ◌∷◌, ◌++◌}
use forza_motorsport_linux.Base.Tests.{Bool-cases}
use native.Mathlib.Decide.{ℕ_discrete}
use native.Mathlib.Omega.{arith}
use text.Mathlib.Text
use text.Mathlib.TextEquality.{eq_iff}

pub record Eq {ℓ} (A : Type ℓ) : Type ℓ where
  pub dec : Discrete A

module _ {ℓ} {A : Type ℓ} ⦃e : Eq A⦄ where
  infix 50 ◌==◌
  abbrev pub ◌==◌ : A → A → Bool
  a == b = ite (e.dec a b) true false

  -- `a in xs`
  abbrev pub contains : List A → A → Bool
  contains [] a = false
  contains (x ∷ xs) a = a == x || contains xs a

  pub ==_iff : (a b : A) → ((a == b) ≡ true) ↔ (a ≡ b)
  ==_iff a b = ground arith

  pub ==_refl : (a : A) → (a == a) ≡ true
  ==_refl a = ground arith

  pub contains-append :
      (xs ys : List A) (a : A) → contains xs a ≡ true → contains (xs ++ ys) a ≡ true
  contains-append (x ∷ xs) ys a h = elim (Bool-cases (a == x)) [
    | inl same ↦ rw same refl
    | inr differ ↦ rw differ (contains-append xs ys a (ground arith))
  ]
  contains-append [] ys a h = cc

  pub contains-last : (xs : List A) (a : A) → contains (xs ++ (a ∷ [])) a ≡ true
  contains-last [] a = ground arith
  contains-last (x ∷ xs) a = rw (contains-last xs a) (ground arith)

  pub contains-append_other :
      (xs : List A) (a b : A) → contains xs a ≡ false → a ≢ b → contains (xs ++ (b ∷ [])) a ≡ false
  contains-append_other [] a b h n = ground arith
  contains-append_other (x ∷ xs) a b h n =
      rw (contains-append_other xs a b (ground arith) n) (ground arith)

  list_dec : Discrete (List A)
  list_dec = hlevel e.dec

  option_dec : Discrete (Option A)
  option_dec = hlevel e.dec

  instance unfoldable pub list_eq : Eq (List A)
  unfolding list_dec
  list_eq = record { dec = list_dec }

  instance unfoldable pub option_eq : Eq (Option A)
  unfolding option_dec
  option_eq = record { dec = option_dec }

instance unfoldable pub nat_eq : Eq ℕ
unfolding ℕ_discrete
nat_eq = record { dec = ℕ_discrete }

instance unfoldable pub bool_eq : Eq Bool
bool_eq = record { dec = Bool-discrete }

instance unfoldable pub string_eq : Eq String
string_eq = record {
  dec = λ s t.
      dite (Bool-discrete (Text.◌==◌ s t) true) (λ same. yes ((eq_iff s t).0 same))
        (λ differ. no (λ p. differ ((eq_iff s t).1 p)));
}

-- A test by `refl` names this on its `unfolding` line, so that `==` computes at numbers and texts.
unfoldable pub equality : Unit {0}
unfolding nat_eq list_eq option_eq string_eq bool_eq
equality = tt
