-- ===== src/Base/Order.antt =====
-- `sorted` on texts: stable insertion by the order of code points.
use Prim.Native.Nat.{suc}
use mathlib.Core.Path.{◌≡◌, refl, sym, ap, ◌∙◌}
use mathlib.Core.Bool.{Bool, true, false, ◌&&◌, ◌||◌}
use mathlib.Core.List.{List, [], ◌∷◌, ◌++◌}
use native.Mathlib.Omega.{arith}
use forza_motorsport_linux.Base.Tests.{ltb, Bool-cases, if◌then◌else◌}
use forza_motorsport_linux.Base.Equality.{◌==◌, nat_eq}
use forza_motorsport_linux.Base.Lists.{All, All-append, length}
use forza_motorsport_linux.Base.Texts.{Text}
use mathlib.Core.Logic.{inl, inr, ◌≢◌}

-- a <= b, on texts
unfoldable pub text_leb : Text → Text → Bool
text_leb [] b = true
text_leb (c ∷ a) [] = false
text_leb (c ∷ a) (d ∷ b) = ltb c d || (c == d && text_leb a b)

module _ {ℓ} {A : Type ℓ} (key : A → Text) where
  -- The new element stands before those whose keys are not smaller.
  unfoldable pub insert_by : A → List A → List A
  insert_by x [] = x ∷ []
  insert_by x (y ∷ ys) = if text_leb (key x) (key y) then x ∷ y ∷ ys else y ∷ insert_by x ys

  -- sorted(xs, key=key)
  unfoldable pub sorted_by : List A → List A
  unfolding insert_by
  sorted_by [] = []
  sorted_by (x ∷ xs) = insert_by x (sorted_by xs)

  length-insert_by : (x : A) (ys : List A) → length (insert_by x ys) ≡ suc (length ys)
  unfolding insert_by
  length-insert_by x [] = refl
  length-insert_by x (y ∷ ys) = ground (arith, length-insert_by x ys)

  pub length-sorted_by : (xs : List A) → length (sorted_by xs) ≡ length xs
  unfolding sorted_by
  length-sorted_by [] = refl
  length-sorted_by (x ∷ xs) = length-insert_by x (sorted_by xs) ∙ ap suc (length-sorted_by xs)

  module _ {κ} (P : A → Type κ) where
    All-insert_by : (x : A) (ys : List A) → P x → All P ys → All P (insert_by x ys)
    unfolding insert_by
    All-insert_by x [] h hs = (h, tt)
    All-insert_by x (y ∷ ys) h hs = elim (Bool-cases (text_leb (key x) (key y))) [
      | inl le ↦ rw le (h, hs)
      | inr gt ↦ rw gt (hs.0, All-insert_by x ys h hs.1)
    ]

    All-of_insert_by : (x : A) (ys : List A) → All P (insert_by x ys) → P x × All P ys
    unfolding insert_by
    All-of_insert_by x [] h = (h.0, tt)
    All-of_insert_by x (y ∷ ys) h = elim (Bool-cases (text_leb (key x) (key y))) [
      | inl le ↦ rw le at h
      | inr gt ↦
          let h' : P y × All P (insert_by x ys) = rw gt at h in
          let rest = All-of_insert_by x ys h'.1 in (rest.0, (h'.0, rest.1))
    ]

    pub All-sorted_by : (xs : List A) → All P xs → All P (sorted_by xs)
    unfolding sorted_by
    All-sorted_by [] h = tt
    All-sorted_by (x ∷ xs) h = All-insert_by x (sorted_by xs) h.0 (All-sorted_by xs h.1)

    pub All-of_sorted_by : (xs : List A) → All P (sorted_by xs) → All P xs
    unfolding sorted_by
    All-of_sorted_by [] h = tt
    All-of_sorted_by (x ∷ xs) h =
        let parts = All-of_insert_by x (sorted_by xs) h in (parts.0, All-of_sorted_by xs parts.1)

  -- No two items have the same key.
  unfoldable pub IsDistinctBy : List A → Type 0
  IsDistinctBy [] = Unit
  IsDistinctBy (x ∷ xs) = All (λ y. key y ≢ key x) xs × IsDistinctBy xs

  insert_by-IsDistinctBy :
      (x : A) (ys : List A)
      → All (λ y. key y ≢ key x) ys
      → IsDistinctBy ys
      → IsDistinctBy (insert_by x ys)
  unfolding insert_by IsDistinctBy
  insert_by-IsDistinctBy x [] h d = (tt, tt)
  insert_by-IsDistinctBy x (y ∷ ys) h d = elim (Bool-cases (text_leb (key x) (key y))) [
    | inl le ↦ rw le (h, d)
    | inr gt ↦ rw gt (
      All-insert_by (λ z. key z ≢ key y) x ys (λ e. h.0 (sym e)) d.0,
      insert_by-IsDistinctBy x ys h.1 d.1,
    )
  ]

  pub sorted_by-IsDistinctBy : (xs : List A) → IsDistinctBy xs → IsDistinctBy (sorted_by xs)
  unfolding sorted_by IsDistinctBy
  sorted_by-IsDistinctBy [] d = tt
  sorted_by-IsDistinctBy (x ∷ xs) d =
      insert_by-IsDistinctBy x (sorted_by xs) (All-sorted_by (λ y. key y ≢ key x) xs d.0)
        (sorted_by-IsDistinctBy xs d.1)

  pub append-IsDistinctBy :
      (xs : List A) (x : A)
      → All (λ y. key y ≢ key x) xs
      → IsDistinctBy xs
      → IsDistinctBy (xs ++ (x ∷ []))
  unfolding IsDistinctBy
  append-IsDistinctBy [] x h d = (tt, tt)
  append-IsDistinctBy (y ∷ xs) x h d = (
    All-append (λ z. key z ≢ key y) xs (x ∷ []) d.0 ((λ e. h.0 (sym e)), tt),
    append-IsDistinctBy xs x h.1 d.1,
  )
