-- ===== src/Archive/Header/Numbers.antt =====
-- `_tar_number` (forza_bootstrap/artifacts.py) reads the octal fields that tar writers make.
use forza_motorsport_linux.Base.{
  ℕ, zero, suc, ◌+◌, ◌-◌, ◌*◌, ◌/◌, ◌%◌, ◌^◌, ◌<◌, ◌≡◌, refl, sym, ap, ◌∙◌, true, false, List, [],
  ◌∷◌, ◌++◌, reverse, ok, arith, ◌==◌, nat_eq, list_eq, All, All-append, All-all_of,
}
use native.Mathlib.Numerals.{unary_clauses}
use mathlib.Core.List.{reverse-append, reverse-reverse}
use forza_motorsport_linux.Archive.Header.{
  from_digits, digits_of, strip_left, strip, is_octal, octal_number, tar_number,
}

-- The last digits of a number in octal, the highest first: the first argument is their count.
unfoldable pub octal_digits : ℕ → ℕ → List ℕ
octal_digits zero n = []
octal_digits (suc width) n = octal_digits width (n / 8) ++ ((b'0' + n % 8) ∷ [])

-- A field of an octal number as tar writers make it, which a NUL ends.
unfoldable pub octal_field : ℕ → ℕ → List ℕ
unfolding octal_digits
octal_field width n = octal_digits width n ++ (0 ∷ [])

from_digits-append :
    (base high : ℕ) (a : List ℕ) (c : ℕ)
    → from_digits base high (digits_of (a ++ (c ∷ [])))
      ≡ from_digits base high (digits_of a) * base + (c - b'0')
unfolding from_digits digits_of
from_digits-append base high [] c = refl
from_digits-append base high (d ∷ a) c = from_digits-append base (high * base + (d - b'0')) a c

div-lt-pow : (width n : ℕ) → n < 8 ^ suc width → n / 8 < 8 ^ width
div-lt-pow width n h = let k = simp unary_clauses at h in omega (arith, k)

from_digits-octal_digits :
    (width n : ℕ) → n < 8 ^ width → from_digits 8 0 (digits_of (octal_digits width n)) ≡ n
unfolding octal_digits
from_digits-octal_digits zero n h = unfold from_digits digits_of in omega arith
from_digits-octal_digits (suc width) n h =
    from_digits-append 8 0 (octal_digits width (n / 8)) (b'0' + n % 8)
    ∙ omega (arith, from_digits-octal_digits width (n / 8) (div-lt-pow width n h))

All-octal_digits : (width n : ℕ) → All (λ c. is_octal c ≡ true) (octal_digits width n)
unfolding octal_digits
All-octal_digits zero n = tt
All-octal_digits (suc width) n =
    All-append (λ c. is_octal c ≡ true) (octal_digits width (n / 8)) ((b'0' + n % 8) ∷ [])
      (All-octal_digits width (n / 8)) (ground arith, tt)

strip_left-octal : (c : ℕ) (rest : List ℕ) → is_octal c ≡ true → strip_left (c ∷ rest) ≡ c ∷ rest
unfolding strip_left
strip_left-octal c rest h = ground arith

strip_left-zero : (rest : List ℕ) → strip_left (0 ∷ rest) ≡ strip_left rest
unfolding strip_left
strip_left-zero rest = ground arith

-- Digits before the first of which nothing is stripped; the last digit stands apart.
module _ (digits : List ℕ) (c : ℕ) (octal : All (λ d. is_octal d ≡ true) digits)
    (last : is_octal c ≡ true) where
  strip_left-digits :
      (rest : List ℕ) → strip_left ((digits ++ (c ∷ [])) ++ rest) ≡ (digits ++ (c ∷ [])) ++ rest
  strip_left-digits rest = go digits octal
    where
      go :
          (ds : List ℕ)
          → All (λ d. is_octal d ≡ true) ds
          → strip_left ((ds ++ (c ∷ [])) ++ rest) ≡ (ds ++ (c ∷ [])) ++ rest
      go [] h = strip_left-octal c rest last
      go (d ∷ ds) h = strip_left-octal d ((ds ++ (c ∷ [])) ++ rest) h.0

  strip-digits : strip ((digits ++ (c ∷ [])) ++ (0 ∷ [])) ≡ digits ++ (c ∷ [])
  unfolding strip
  strip-digits =
      let all : List ℕ = digits ++ (c ∷ []) in
      let turned : reverse all ≡ c ∷ reverse digits = reverse-append digits (c ∷ []) in
      ap (λ t. reverse (strip_left (reverse t))) (strip_left-digits (0 ∷ []))
      ∙ ap (λ t. reverse (strip_left t)) (reverse-append all (0 ∷ []))
      ∙ ap reverse (
          strip_left-zero (reverse all)
          ∙ ap strip_left turned
          ∙ strip_left-octal c (reverse digits) last
          ∙ sym turned)
      ∙ reverse-reverse all

  tar_number-digits :
      (rest : List ℕ)
      → tar_number ((digits ++ (c ∷ [])) ++ rest)
        ≡ octal_number (strip ((digits ++ (c ∷ [])) ++ rest))
  unfolding tar_number
  tar_number-digits rest = go digits octal
    where
      go :
          (ds : List ℕ)
          → All (λ d. is_octal d ≡ true) ds
          → tar_number ((ds ++ (c ∷ [])) ++ rest) ≡ octal_number (strip ((ds ++ (c ∷ [])) ++ rest))
      go [] h = ground arith
      go (d ∷ ds) h = ground arith

  octal_number-digits :
      octal_number (digits ++ (c ∷ [])) ≡ ok (from_digits 8 0 (digits_of (digits ++ (c ∷ []))))
  unfolding octal_number
  octal_number-digits = rw (
    nonempty digits,
    All-all_of is_octal (digits ++ (c ∷ []))
        (All-append (λ d. is_octal d ≡ true) digits (c ∷ []) octal (last, tt)),
  )
    where
      nonempty : (ds : List ℕ) → ((ds ++ (c ∷ [])) == []) ≡ false
      nonempty [] = ground arith
      nonempty (d ∷ ds) = ground arith

-- A number below 8^(width + 1), written in that many octal digits with a NUL after them, is read as
-- itself.
pub tar_number-octal_field :
    (width n : ℕ) → n < 8 ^ suc width → tar_number (octal_field (suc width) n) ≡ ok n
unfolding octal_field octal_digits
tar_number-octal_field width n h =
    let digits : List ℕ = octal_digits width (n / 8) in
    let c : ℕ = b'0' + n % 8 in
    let octal : All (λ d. is_octal d ≡ true) digits = All-octal_digits width (n / 8) in
    let last : is_octal c ≡ true = ground arith in
    tar_number-digits digits c octal last (0 ∷ [])
    ∙ ap octal_number (strip-digits digits c octal last)
    ∙ octal_number-digits digits c octal last
    ∙ ap ok (from_digits-octal_digits (suc width) n h)
