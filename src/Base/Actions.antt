-- ===== src/Base/Actions.antt =====
-- Code that changes a world and may raise: what it did before it raised stays done.
use mathlib.Core.Path.{◌≡◌, refl, subst}
use forza_motorsport_linux.Base.Results.{
  Error, message, about, key_error, recursion_error, file_not_found, IsBootstrapError, Result, err,
  ok,
}

abbrev pub Action : Type 0 → Type 0 → Type 0
Action W A = W → Result A × W

module _ {W A : Type 0} where
  abbrev pub pure : A → Action W A
  pure a w = (ok a, w)

  abbrev pub fail : Error → Action W A
  fail e w = (err e, w)

  -- A result that needs no world.
  abbrev pub lift : Result A → Action W A
  lift r w = (r, w)

-- The rest of a block, from the outcome of its first action.
module _ {W A B : Type 0} where
  abbrev pub continue_with : (A → Action W B) → Result A × W → Result B × W
  continue_with rest (err e, w) = (err e, w)
  continue_with rest (ok a, w) = rest a w

  infixl 5 ◌>>=◌
  abbrev pub ◌>>=◌ : Action W A → (A → Action W B) → Action W B
  ◌>>=◌ m rest w = continue_with rest (m w)

  infixl 5 ◌>>◌
  abbrev pub ◌>>◌ : Action W A → Action W B → Action W B
  ◌>>◌ m rest w = continue_with (λ _. rest) (m w)

-- try: …; except BootstrapError as error: …
module _ {W A B : Type 0} where
  abbrev pub handle : (Error → Action W B) → (A → Action W B) → Result A × W → Result B × W
  handle caught rest (ok a, w) = rest a w
  handle caught rest (err (message text), w) = caught (message text) w
  handle caught rest (err (about text detail), w) = caught (about text detail) w
  handle caught rest (err e, w) = (err e, w)

  -- The block that is tried, the handler, and the code behind the statement.
  abbrev pub try_then : Action W A → (Error → Action W B) → (A → Action W B) → Action W B
  try_then m caught rest w = handle caught rest (m w)

-- For a result that there is not.
abbrev pub Never : {W A : Type 0} → A → W → Type 0
Never a w = ⊥

-- What holds of an outcome: of the value and the world, or of the error and the world.
pub record Leaves {W A : Type 0} (P : A → W → Type 0) (E : Error → W → Type 0) (o : Result A × W)
    : Type 0 where
  pub on_ok : (a : A) (w : W) → o ≡ (ok a, w) → P a w
  pub on_err : (e : Error) (w : W) → o ≡ (err e, w) → E e w

module _ {W A : Type 0} {P : A → W → Type 0} {E : Error → W → Type 0} where
  pub Leaves-ok : (a : A) (w : W) → P a w → Leaves P E (ok a, w)
  Leaves-ok a w p = record {
    on_ok = λ b v e. subst (λ (o : Result A × W). Holds o) e p;
    on_err = λ b v e. cc;
  }
    where
      Holds : Result A × W → Type 0
      Holds (ok b, v) = P b v
      Holds (err b, v) = Unit

  pub Leaves-err : (e : Error) (w : W) → E e w → Leaves P E (err e, w)
  Leaves-err e w p = record {
    on_ok = λ b v h. cc;
    on_err = λ b v h. subst (λ (o : Result A × W). Holds o) h p;
  }
    where
      Holds : Result A × W → Type 0
      Holds (ok b, v) = Unit
      Holds (err b, v) = E b v

module _ {W A : Type 0} {P Q : A → W → Type 0} {D E : Error → W → Type 0} where
  pub Leaves-map :
      (o : Result A × W)
      → Leaves P D o
      → ((a : A) (w : W) → P a w → Q a w)
      → ((e : Error) (w : W) → D e w → E e w)
      → Leaves Q E o
  Leaves-map (ok a, w) h k x = Leaves-ok a w (k a w (h.on_ok a w refl))
  Leaves-map (err e, w) h k x = Leaves-err e w (x e w (h.on_err e w refl))

module _ {W A : Type 0} {P Q : A → W → Type 0} {E : Error → W → Type 0} where
  -- What holds of every result, and that there is one.
  pub Leaves-and-Never :
      (o : Result A × W) → Leaves P E o → Leaves Q Never o → Leaves (λ a w. P a w × Q a w) Never o
  Leaves-and-Never (ok a, w) h k = Leaves-ok a w (h.on_ok a w refl, k.on_ok a w refl)
  Leaves-and-Never (err e, w) h k = absurd (k.on_err e w refl)

module _ {W A B : Type 0} {P : A → W → Type 0} {Q : B → W → Type 0} {E : Error → W → Type 0} where
  pub Leaves-bind :
      (rest : A → Action W B) (o : Result A × W)
      → Leaves P E o
      → ((a : A) (w : W) → P a w → Leaves Q E (rest a w))
      → Leaves Q E (continue_with rest o)
  Leaves-bind rest (ok a, w) h k = k a w (h.on_ok a w refl)
  Leaves-bind rest (err e, w) h k = Leaves-err e w (h.on_err e w refl)

module _ {W A B : Type 0} {P : A → W → Type 0} {Q : B → W → Type 0} {D E : Error → W → Type 0} where
  -- The handler sees what the error left; an error that is not caught leaves what it left.
  pub Leaves-handle :
      (caught : Error → Action W B) (rest : A → Action W B) (o : Result A × W)
      → Leaves P D o
      → ((a : A) (w : W) → P a w → Leaves Q E (rest a w))
      → ((e : Error) (w : W) → D e w → Leaves Q E (caught e w))
      → ((e : Error) (w : W) → ¬ IsBootstrapError e → D e w → E e w)
      → Leaves Q E (handle caught rest o)
  Leaves-handle caught rest (ok a, w) h k c x = k a w (h.on_ok a w refl)
  Leaves-handle caught rest (err (message text), w) h k c x =
      c (message text) w (h.on_err (message text) w refl)
  Leaves-handle caught rest (err (about text detail), w) h k c x =
      c (about text detail) w (h.on_err (about text detail) w refl)
  Leaves-handle caught rest (err (key_error key), w) h k c x =
      Leaves-err (key_error key) w (x (key_error key) w (λ b. b) (h.on_err (key_error key) w refl))
  Leaves-handle caught rest (err (file_not_found name), w) h k c x =
      Leaves-err (file_not_found name) w
        (x (file_not_found name) w (λ b. b) (h.on_err (file_not_found name) w refl))
  Leaves-handle caught rest (err recursion_error, w) h k c x =
      Leaves-err recursion_error w (x recursion_error w (λ b. b) (h.on_err recursion_error w refl))
